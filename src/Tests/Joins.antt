-- ===== src/Tests/Joins.antt =====
-- Streams that a relay joins (internal/relay/relay.go, internal/bridge).
use mathlib.Core.List.Memᴰ.{Memᴰ}
use secure_access_relay.Common.{
  true, false, codes, bytes_eq, List, [], ◌∷◌, none, some, refl, arith,
}
use secure_access_relay.Common.Named.{find}
use secure_access_relay.Proto.Handshake.{take_string}
use secure_access_relay.Proto.Grant.{decode_tail, canonical, encode_grant, decode_grant, verify}
use secure_access_relay.Agent.{dials, handle_stream, lookup_resource, validate_target}
use secure_access_relay.Relay.Joining.{state, opened, Config, opens, standing, join_stream}
use secure_access_relay.Relay.Joining.Authorized.{IsOneGrant, end_to_end}
use secure_access_relay.Bridge.{eof, Kinds, new_join, Event, a_read, b_read, b_wrote, run}
use secure_access_relay.Bridge.Chunks.{Delivers}
use secure_access_relay.Bridge.Budget.{IsWithin, budget_kept, delivered_in_order}
use secure_access_relay.Tests.Grants.{toy, key, noon, issued, local, endpoint, quiet}

abbrev pub relay : Config
relay = record {
  grant_key = key;
  audit = true;
  grants =
      some (λ grant_id.
        state (record { is_known = true; is_revoked = false; session_id = codes "s1" }));
}

opened_run :
    Memᴰ
      (opens (encode_grant issued))
      (join_stream toy relay (codes "dev") (codes "alice") noon opened false (encode_grant issued))
unfolding join_stream decode_grant encode_grant canonical take_string decode_tail verify bytes_eq
    standing
opened_run = Memᴰ.head refl

dialled_run :
    Memᴰ (dials (codes "22")) (handle_stream toy local endpoint quiet (encode_grant issued))
unfolding handle_stream decode_grant encode_grant canonical take_string decode_tail verify bytes_eq
    lookup_resource validate_target find
dialled_run = Memᴰ.tail (Memᴰ.head refl)

end_to_end_example :
    IsOneGrant toy relay
      (codes "dev")
      (codes "alice")
      noon
      opened
      false
      local
      endpoint
      quiet
      (encode_grant issued)
      (encode_grant issued)
      (codes "22")
end_to_end_example =
    end_to_end toy relay (codes "dev") (codes "alice") noon opened false local endpoint quiet
      (encode_grant issued) (encode_grant issued) (codes "22") opened_run dialled_run

-- Two streams of a session.
abbrev streams : Kinds
streams = record { resetter = λ side. true; close_writer = λ side. true }

-- Three bytes one way and four the other, with a budget of five.
abbrev transfer : List Event
transfer =
    a_read (1 ∷ 2 ∷ 3 ∷ []) none ∷ b_read (4 ∷ 5 ∷ 6 ∷ 7 ∷ []) (some eof) ∷ b_wrote 3 false ∷ []

budget_kept_example : IsWithin 5 (omega arith) (run streams 5 transfer new_join)
budget_kept_example = budget_kept 5 (omega arith) streams transfer

delivered_in_order_example :
    let j = run streams 5 transfer new_join in
    Delivers j.a_to_b.read j.a_to_b.moved j.a_to_b.phase
    × Delivers j.b_to_a.read j.b_to_a.moved j.b_to_a.phase
delivered_in_order_example = delivered_in_order 5 (omega arith) streams transfer
