-- ===== src/Problems/Tests.antt =====
-- A problem of a channel that is not found.
use mpp_movement.Prelude.{◌≡◌, refl, none, some, ◌++◌}
use mpp_movement.Text.{codes}
use mpp_movement.Errors
use mpp_movement.Problems.Types.{channel_not_found}
use mpp_movement.Problems.Texts.{display}
use mpp_movement.Problems.{to_problem_details, from_verification, core_problem_type_base}
use mpp_movement.Problems.Agreement.{to_problem_details_agrees, suffix_of, status_for}

details :
    to_problem_details
      (from_verification (Errors.with_code Errors.channel_not_found) (codes "x"))
      (some (codes "c1"))
    ≡ record {
      problem_type = codes "https://paymentauth.org/problems/session/channel-not-found";
      title = codes "ChannelNotFoundError";
      status = 410;
      detail = codes "Channel not found: x.";
      challenge_id = some (codes "c1");
    }
unfolding to_problem_details from_verification display
details = refl

to_problem_details_agrees_example :
    ((to_problem_details (channel_not_found none) none).problem_type
      ≡ core_problem_type_base ++ (codes "/" ++ suffix_of (channel_not_found none)))
    × ((to_problem_details (channel_not_found none) none).status
        ≡ status_for (suffix_of (channel_not_found none)))
    × ((to_problem_details (channel_not_found none) none).detail ≡ display (channel_not_found none))
to_problem_details_agrees_example = to_problem_details_agrees (channel_not_found none) none
