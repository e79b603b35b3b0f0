-- ===== src/Tests/Operators.antt =====
-- What an operator and an agent do on their own side (internal/operator, internal/backoff,
-- internal/identity).
use mathlib.Core.List.Memᴰ.{Memᴰ}
use secure_access_relay.Common.{
  ℕ, zero, suc, ◌+◌, ◌*◌, ◌^◌, leb, ◌<◌, true, false, codes, Bytes, bytes_eq, List, [], ◌∷◌, none,
  some, ◌≡◌, refl, arith, All,
}
use secure_access_relay.Common.Except.{ok, err}
use secure_access_relay.Proto.Grant.{second, canonical, encode_grant, decode_grant, decode_tail}
use secure_access_relay.Proto.Handshake.{take_string}
use secure_access_relay.Control.Policy.{nanoseconds}
use secure_access_relay.Control.Enrollment.{identity_scheme, role_device, identity_of}
use secure_access_relay.Backoff.{Floats, Random, Policy, new_pace, fails, succeeds, Retry}
use secure_access_relay.E2ee.{inner_session, alpn}
use secure_access_relay.Operator.Sessions.{Reply, LoginReply, Occasion}
use secure_access_relay.Operator.Sessions.Commands.{
  Command, connects, logs_in, logs_out, run, AtHome, step,
}
use secure_access_relay.Operator.Sessions.Obtained.{Presentable}
use secure_access_relay.Operator.Sessions.Presented.{outset, run-Presentable}
use secure_access_relay.Operator.Grants.{Forward, Attempt, empty_cache, current_grant}
use secure_access_relay.Operator.Forwarding.{Link, Journey, Deed, joins, opens, handle_local}
use secure_access_relay.Operator.Forwarding.Carried.{IsSound, handle_all, handle_all-IsSound}
use secure_access_relay.Credentials.{
  Pki, holds, absent, Disk, Holder, Renewal, Chance, key_mismatch, load, renew_holder, post_renew,
}
use secure_access_relay.Credentials.Interrupted.{Round, rounds, rounds-IsPair, load-renew_holder}
use secure_access_relay.Tests.Grants.{toy, key, noon, issued}

abbrev highest : ℕ → ℕ
highest zero = 0
highest (suc n) = n

highest_lt : (n : ℕ) → 0 < n → highest n < n
highest_lt zero h = h
highest_lt (suc n) h = omega arith

-- The longest delay every time.
abbrev unlucky : Random
unlucky = record { below = highest; below_lt = highest_lt }

-- Whole numbers, on which the operations are exact.
abbrev wholes : Floats ℕ
wholes = record {
  of_int = λ n. n;
  times = λ a b. a * b;
  pow = λ a b. a ^ b;
  at_least = λ a b. leb b a;
  is_infinite = λ a. false;
  to_duration = λ a. nanoseconds a;
}

-- The initial delay is above the longest one that is given, and the factor is missing.
abbrev hasty : Policy ℕ
hasty = record { initial = nanoseconds (10 * second); max = nanoseconds (8 * second); factor = 0 }

abbrev retries : List Retry
retries = fails ∷ fails ∷ succeeds ∷ fails ∷ []

abbrev login_reply : Reply LoginReply
login_reply = record {
  status = 200;
  decodes = true;
  body = record {
    token = codes "h1";
    session_id = codes "s1";
    user_id = codes "alice";
    expires_at = some (noon + 3600 * second);
  };
  message = [];
}

abbrev occasion : Occasion
occasion = record { now = noon; reply = some login_reply; saves = true }

abbrev commands : List Command
commands =
    logs_in (codes "control") occasion
    ∷ connects (codes "control") occasion
    ∷ connects (codes "elsewhere") occasion
    ∷ logs_out (codes "elsewhere") none true
    ∷ []

at_home : AtHome commands outset
unfolding step bytes_eq
at_home = (refl, tt)

run-Presentable_example : All (Presentable (run commands outset).issued) (run commands outset).sent
run-Presentable_example = run-Presentable commands at_home

abbrev forward : Forward
forward = record { control_addr = codes "control"; grant_key = some key }

abbrev attempt : Attempt
attempt = record {
  now = noon;
  session = some (some (codes "h1"));
  reply =
      some
        (record { status = 200; decodes = true; grant = some (encode_grant issued); message = [] });
  verified_at = noon;
}

abbrev journey : Journey
journey = record {
  meeting = record { ended = false; now = noon; dials = some 1; failed_at = noon };
  attempt = attempt;
  opens_stream = true;
  exchange = record {
    peer = record {
      certificates =
          record {
            uris = record { scheme = codes "sar"; host = codes "device"; path = codes "/dev" } ∷ [];
            serial = codes "a1";
          }
          ∷ [];
      chain_good = true;
    };
    completes = true;
    protocol = codes "sar/e2ee/1";
  };
}

abbrev link : Link ℕ
link = record { session = none; pace = new_pace wholes hasty; not_before = 0 }

abbrev deeds : List Deed
deeds = opens 1 (encode_grant issued) ∷ joins ∷ []

carried :
    Memᴰ
      (journey, deeds)
      (handle_all toy wholes unlucky forward (codes "dev") (journey ∷ []) (link, empty_cache))
unfolding handle_all handle_local empty_cache current_grant bytes_eq identity_scheme role_device
    encode_grant canonical decode_grant take_string decode_tail inner_session alpn
carried = Memᴰ.head refl

handle_all-IsSound_example : IsSound toy forward (codes "dev") journey deeds
handle_all-IsSound_example =
    handle_all-IsSound toy wholes unlucky forward (codes "dev") noon (journey ∷ []) link journey
      deeds (omega arith) carried (Memᴰ.tail (Memᴰ.head refl))

-- A certificate "c" and a key "k" with the same number are a pair.
abbrev numbered : Bytes → Bytes → Bytes
numbered [] b = []
numbered (x ∷ a) b = a

abbrev pki : Pki
pki = record {
  key_pair = λ cert k. bytes_eq (numbered cert []) (numbered k []);
  leaf = λ cert. some (record {
    uris = record { scheme = codes "sar"; host = codes "device"; path = codes "/dev" } ∷ [];
    serial = cert;
  });
  not_after = λ cert. noon + 3600 * second;
  has_certificates = λ pem. true;
  server_name = λ b. b;
  grant_key = λ b. some b;
}

abbrev disk : Disk
disk = record {
  key = holds (codes "k1");
  certificate = holds (codes "c1");
  authority = holds (codes "ca");
  server = absent;
  grant_key = absent;
}

abbrev holder : Holder
holder = record {
  certificate = codes "c1";
  key = codes "k1";
  authority = codes "ca";
  id = record { role = codes "device"; id = codes "dev" };
  server_name = [];
  not_after = noon + 3600 * second;
  grant_key = none;
}

abbrev renewal : Renewal
renewal = record { certificate = codes "c2"; authority = []; grant_key = [] }

-- The power fails before the certificate is written.
abbrev blackout : Chance
blackout = record {
  new_key = some (codes "k2");
  reply = some (record { status = 200; decodes = true; body = renewal; message = [] });
  has_directory = true;
  key_saved = true;
  certificate_left = some (holds (codes "c1"));
  authority_left = none;
  grant_key_left = none;
}

load_run : load pki disk ≡ ok holder
unfolding load identity_of bytes_eq identity_scheme role_device
load_run = refl

answered : post_renew blackout.reply ≡ ok renewal
unfolding post_renew
answered = refl

pairs_new : pki.key_pair (codes "c2") (codes "k2") ≡ true
unfolding bytes_eq
pairs_new = refl

pairs_old : pki.key_pair (codes "c1") (codes "k1") ≡ true
unfolding bytes_eq
pairs_old = refl

no_pair : pki.key_pair (codes "c1") (codes "k2") ≡ false
unfolding bytes_eq
no_pair = refl

load-renew_holder_example : load pki (renew_holder pki blackout disk).0 ≡ err key_mismatch
load-renew_holder_example =
    load-renew_holder pki blackout disk holder (codes "k2") renewal load_run refl answered pairs_new
      no_pair refl refl refl

abbrev round : Round
round = record {
  control_addr = codes "control";
  state_dir = codes "state";
  now = noon;
  later = noon;
  chance = blackout;
}

rounds-IsPair_example :
    pki.key_pair
      (rounds pki (round ∷ []) (disk, holder)).1.certificate
      (rounds pki (round ∷ []) (disk, holder)).1.key
    ≡ true
rounds-IsPair_example = rounds-IsPair pki (round ∷ []) disk holder pairs_old
