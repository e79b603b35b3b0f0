-- ===== src/Relay/Live.antt =====
-- internal/relay/authorization: the live streams of each grant, and their end on a revocation.
pub mod Revocation
pub mod Numbering
use secure_access_relay.Common.{ℕ, ◌+◌, Bytes, length, List, [], ◌∷◌, ◌++◌, Option, none, some}
use secure_access_relay.Common.Table.{Table, insert, delete}
use secure_access_relay.Common.Named.{Named, find, put, erase}
use secure_access_relay.Proto.Reason.{Reason}

-- `pair`: the two ends of a joined stream, each the number of a `Closer`.
pub record Pair : Type 0 where
  pub operator : ℕ
  pub agent : ℕ

pub record LiveStreams : Type 0 where
  pub by_grant : Named (Table Pair)
  pub next_id : ℕ

unfoldable pub new_live_streams : LiveStreams
new_live_streams = record { by_grant = []; next_id = 0 }

-- The function that `Add` returns: one that does nothing, or one that removes the stream.
pub data Release : Type 0 where
  nothing : Release
  removes : Bytes → ℕ → Release

-- The streams of a grant; a missing entry has none.
abbrev pub entries : Option (Table Pair) → Table Pair
entries none = []
entries (some t) = t

unfoldable pub streams_of : Bytes → LiveStreams → Table Pair
streams_of grant_id l = entries (find grant_id l.by_grant)

unfoldable pub add : Bytes → ℕ → ℕ → LiveStreams → LiveStreams × Release
unfolding streams_of
add [] operator agent l = (l, nothing)
add (c ∷ cs) operator agent l =
    let grant_id = c ∷ cs in
    let id = l.next_id + 1 in
    (
      record {
        by_grant =
            put grant_id
              (insert id (record { operator = operator; agent = agent }) (streams_of grant_id l))
              l.by_grant;
        next_id = id;
      },
      removes grant_id id,
    )

-- The entry of a grant with the streams that are left, or no entry without any.
abbrev pub keep_entry : Bytes → Table Pair → Named (Table Pair) → Named (Table Pair)
keep_entry grant_id [] m = erase grant_id m
keep_entry grant_id (x ∷ t) m = put grant_id (x ∷ t) m

abbrev pub without : Bytes → ℕ → Option (Table Pair) → LiveStreams → LiveStreams
without grant_id id none l = l
without grant_id id (some t) l = record l {
  by_grant = keep_entry grant_id (delete id t) l.by_grant;
}

unfoldable pub release : Release → LiveStreams → LiveStreams
release nothing l = l
release (removes grant_id id) l = without grant_id id (find grant_id l.by_grant) l

-- The pairs of a grant, in the order that the map gives them.
abbrev pub pairs : Table Pair → List Pair
pairs [] = []
pairs ((id, p) ∷ t) = p ∷ pairs t

-- The first part of `Terminate`, under the lock.
unfoldable pub collect : List Bytes → LiveStreams → LiveStreams × List Pair
unfolding streams_of
collect [] l = (l, [])
collect (g ∷ grant_ids) l =
    let (after, doomed) = collect grant_ids (record l { by_grant = erase g l.by_grant }) in
    (after, pairs (streams_of g l) ++ doomed)

-- The calls of `Reset`, in order.
abbrev pub resets : Reason → List Pair → List (ℕ × Reason)
resets reason [] = []
resets reason (p ∷ doomed) = (p.operator, reason) ∷ (p.agent, reason) ∷ resets reason doomed

pub record Terminated : Type 0 where
  pub live : LiveStreams
  pub calls : List (ℕ × Reason)
  pub dropped : ℕ

unfoldable pub terminate : List Bytes → Reason → LiveStreams → Terminated
unfolding collect
terminate grant_ids reason l =
    let (after, doomed) = collect grant_ids l in
    record { live = after; calls = resets reason doomed; dropped = length doomed }

unfoldable pub count_for : Bytes → LiveStreams → ℕ
unfolding streams_of
count_for grant_id l = length (streams_of grant_id l)

abbrev pub total : Named (Table Pair) → ℕ
total [] = 0
total ((g, t) ∷ m) = length t + total m

unfoldable pub count : LiveStreams → ℕ
count l = total l.by_grant
