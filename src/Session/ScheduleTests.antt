-- ===== src/Session/ScheduleTests.antt =====
-- The theorems on requests that run at once, at a small instance.
use mpp_movement.Prelude.{◌≡◌, refl, sym, ap, ◌∙◌, Option, none, some, ok, List, [], ◌∷◌, arith}
use mpp_movement.Text.{Text, codes}
use mpp_movement.Map.{lookup, insert, Holds, lookup-nil}
use mpp_movement.Voucher.{Bytes, sign_voucher}
use mpp_movement.Voucher.Tests.{toy_crypto, toy_crypto-IsCorrect}
use mpp_movement.Session.State.{ChannelState, Store}
use mpp_movement.Session.Effects.{done, unreachable}
use mpp_movement.Session.Handlers
use mpp_movement.Session.Handlers.{handle_close, parse_hex_bytes}
use mpp_movement.Session.Payload.{SessionCredentialPayload, open_channel}
use mpp_movement.Session.Service.{charge, present}
use mpp_movement.Session.Schedule.{Event, arrives, runs, resume, react_all}
use mpp_movement.Session.Settling.{IsSettleable}
use mpp_movement.Session.Interleaving.{Arrival, react_all-AllSettleable}
use mpp_movement.Session.Race.{closed, close_overwrites}
use mpp_movement.Session.Toy.{
  toy_id, toy_key, toy_signature, toy_crates, toy_config, toy_credential, toy_channel,
  young_channel, young_store, young_stored, reads, toy_voucher-IsHonest,
}

-- An `open`, two charges and a close that run at once.
abbrev toy_events : List Event
toy_events =
    arrives (present (toy_credential 0) none)
    ∷ arrives (charge toy_id 120)
    ∷ arrives (present (toy_credential 2) none)
    ∷ runs 0 unreachable
    ∷ runs 1 unreachable
    ∷ runs 2 unreachable
    ∷ []

abbrev one_key : Text → Bytes
one_key id = toy_key

abbrev signer_of : Option SessionCredentialPayload → Option Text
signer_of (some (open_channel tx id signer amount signature)) = signer
signer_of _ = none

open-Arrival : Arrival toy_crates toy_config one_key (arrives (present (toy_credential 0) none))
unfolding parse_hex_bytes
open-Arrival tx id signer amount signature key e =
    λ d. let named : signer ≡ some toy_key = ap signer_of (sym e) in ground (arith, rw named at d)

close-Arrival : Arrival toy_crates toy_config one_key (arrives (present (toy_credential 2) none))
close-Arrival tx id signer amount signature key e = λ d. absurd (cc)

none-Settleable : Holds (IsSettleable toy_crates one_key) []
none-Settleable id s e = absurd (none_ne_some (sym (lookup-nil id) ∙ e))
  where
    none_ne_some : none ≡ some s → ⊥
    none_ne_some h = cc

react_all-AllSettleable_example :
    Holds
      (IsSettleable toy_crates one_key)
      (react_all toy_crates toy_config toy_events (record { store = []; tasks = [] })).store
react_all-AllSettleable_example =
    react_all-AllSettleable toy_crates toy_config one_key toy_events []
      (open-Arrival, (tt, (close-Arrival, (tt, (tt, (tt, tt)))))) none-Settleable

-- The channel after a voucher of 700 and charges of 650 that run while the close waits.
abbrev busy_channel : ChannelState
busy_channel = record toy_channel { highest_voucher_amount = 700; spent = 650 }

abbrev busy_store : Store
busy_store = (toy_id, busy_channel) ∷ []

busy_stored : lookup toy_id busy_store ≡ some busy_channel
unfolding lookup
busy_stored = refl

close_overwrites_example :
    resume unreachable
      (resume unreachable
        (handle_close toy_crates toy_id (codes "300") toy_signature)
        young_store).0
      busy_store
    ≡ (
      done (ok (Handlers.success toy_crates toy_id)),
      insert toy_id
          (closed busy_channel 300 (sign_voucher toy_crypto 7 toy_voucher-IsHonest.id_bytes 300))
          busy_store,
    )
close_overwrites_example =
    close_overwrites toy_crates toy_crypto-IsCorrect toy_id (codes "300") toy_signature
      young_channel busy_channel 7 300 young_store busy_store unreachable unreachable young_stored
      refl reads (omega arith) toy_voucher-IsHonest busy_stored
