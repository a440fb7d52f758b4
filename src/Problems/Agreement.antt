-- ===== src/Problems/Agreement.antt =====
-- src/error.rs: problem details beside the suffix of an error's problem type.
use mpp_movement.Prelude.{ℕ, ◌≡◌, refl, ◌∙◌, ◌++◌, Option, none, some, or_else, if◌then◌else◌, ◌||◌}
use mpp_movement.Text.{Text, codes, text_eq}
use mpp_movement.Problems.Types.{MppError, amount_exceeds_max}
use mpp_movement.Problems.Texts.{display}
use mpp_movement.Problems.{
  PaymentErrorDetails, core_problem_type_base, problem_type_suffix, problem_of, attach, with_detail,
  or_this, embedded_id, to_problem_details,
}

-- The status that belongs to a suffix.
abbrev pub status_for : Text → ℕ
status_for suffix =
    if text_eq suffix (codes "bad-request")
    then 400
    else if text_eq suffix (codes "session/channel-not-found")
        || text_eq suffix (codes "session/channel-finalized")
    then 410
    else 402

abbrev pub suffix_of : MppError → Text
suffix_of e = or_else (problem_type_suffix e) (codes "internal-error")

suffix_agrees :
    (e : MppError)
    → ((problem_of e).problem_type ≡ core_problem_type_base ++ (codes "/" ++ suffix_of e))
      × ((problem_of e).status ≡ status_for (suffix_of e))
unfolding problem_type_suffix problem_of
suffix_agrees (amount_exceeds_max required max) = (refl, refl)
suffix_agrees _ = (refl, refl)

attach_lem :
    (d : PaymentErrorDetails) (o : Option Text)
    → ((attach d o).problem_type ≡ d.problem_type)
      × ((attach d o).status ≡ d.status)
      × ((attach d o).detail ≡ d.detail)
attach_lem d none = (refl, refl, refl)
attach_lem d (some id) = (refl, refl, refl)

-- Whatever the error and the challenge: the type of its problem is the base with the error's suffix,
-- "internal-error" for one that has none; the status is 400 for a bad request, 410 for a channel that
-- is not found or closed, and 402 for any other; the detail is the error's text.
pub to_problem_details_agrees :
    (e : MppError) (challenge_id : Option Text)
    → ((to_problem_details e challenge_id).problem_type
        ≡ core_problem_type_base ++ (codes "/" ++ suffix_of e))
      × ((to_problem_details e challenge_id).status ≡ status_for (suffix_of e))
      × ((to_problem_details e challenge_id).detail ≡ display e)
unfolding to_problem_details
to_problem_details_agrees e challenge_id =
    let (t, s, d) =
      attach_lem (with_detail (problem_of e) (display e)) (or_this challenge_id (embedded_id e)) in
    (t ∙ (suffix_agrees e).0, s ∙ (suffix_agrees e).1, d)
