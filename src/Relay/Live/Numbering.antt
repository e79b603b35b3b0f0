-- ===== src/Relay/Live/Numbering.antt =====
-- The numbers of live streams, and what a release takes away (internal/relay/authorization, `Add`).
use secure_access_relay.Common.{
  ℕ, ◌+◌, ◌≤◌, Bytes, bytes_eq, bytes_eq→eq, bytes_eq_refl, List, [], ◌∷◌, ◌≡◌, refl, sym, ◌∙◌, ap,
  subst, Bool-cases, if◌then◌else◌, if_intro, inl, inr, Option, none, some, All, arith, ◌==◌,
  ==_refl,
}
use secure_access_relay.Common.Table.{Table, insert, delete}
use secure_access_relay.Common.Named.{Named, find, put, erase, find-put, find-erase}
use secure_access_relay.Proto.Reason.{Reason}
use secure_access_relay.Relay.Live.{
  Pair, LiveStreams, new_live_streams, Release, nothing, removes, entries, streams_of, add,
  keep_entry, without, release, collect, terminate,
}

-- The streams of one grant have numbers up to the last one given.
abbrev pub Numbered : ℕ → Table Pair → Type 0
Numbered n t = All (λ e. e.0 ≤ n) t

abbrev pub IsNumbered : LiveStreams → Type 0
IsNumbered l = (h : Bytes) → Numbered l.next_id (streams_of h l)

Numbered-delete : (n id : ℕ) (t : Table Pair) → Numbered n t → Numbered n (delete id t)
unfolding delete
Numbered-delete n id [] v = tt
Numbered-delete n id ((j, p) ∷ t) (v, vs) =
    if_intro (Numbered n) (j == id) (λ _. Numbered-delete n id t vs)
      (λ _. (v, Numbered-delete n id t vs))

Numbered-suc : (n : ℕ) (t : Table Pair) → Numbered n t → Numbered (n + 1) t
Numbered-suc n [] v = tt
Numbered-suc n (e ∷ t) (v, vs) = (omega arith, Numbered-suc n t vs)

-- A number not given yet is in no table.
delete_fresh : (n : ℕ) (t : Table Pair) → Numbered n t → delete (n + 1) t ≡ t
unfolding delete
delete_fresh n [] v = refl
delete_fresh n ((j, p) ∷ t) (v, vs) = ground (arith, delete_fresh n t vs)

delete-insert_fresh :
    (n : ℕ) (p : Pair) (t : Table Pair) → Numbered n t → delete (n + 1) (insert (n + 1) p t) ≡ t
unfolding delete insert
delete-insert_fresh n p t v = rw (==_refl (n + 1), delete_fresh n t v, delete_fresh n t v) refl

entries-put :
    (g h : Bytes) (t : Table Pair) (m : Named (Table Pair))
    → entries (find h (put g t m)) ≡ (if bytes_eq g h then t else entries (find h m))
entries-put g h t m = elim (Bool-cases (bytes_eq g h)) [
  | inl e ↦ rw (find-put g h t m, e) refl
  | inr e ↦ rw (find-put g h t m, e) refl
]

entries-keep_entry :
    (g h : Bytes) (t : Table Pair) (m : Named (Table Pair))
    → entries (find h (keep_entry g t m)) ≡ (if bytes_eq g h then t else entries (find h m))
entries-keep_entry g h (x ∷ t) m = entries-put g h (x ∷ t) m
entries-keep_entry g h [] m = elim (Bool-cases (bytes_eq g h)) [
  | inl e ↦ rw (find-erase g h m, e) refl
  | inr e ↦ rw (find-erase g h m, e) refl
]

-- What holds of the entry that changed and of the others holds of each.
entry_intro :
    (P : Table Pair → Type 0) (g h : Bytes) (t u : Table Pair)
    → P t
    → P u
    → P (if bytes_eq g h then t else u)
entry_intro P g h t u p q = if_intro P (bytes_eq g h) (λ _. p) (λ _. q)

add-IsNumbered :
    (g : Bytes) (operator agent : ℕ) (l : LiveStreams)
    → IsNumbered l
    → IsNumbered (add g operator agent l).0
unfolding add streams_of insert
add-IsNumbered [] o a l v h = v h
add-IsNumbered (c ∷ g) o a l v h =
    subst (Numbered (l.next_id + 1)) (sym (entries-put (c ∷ g) h _ l.by_grant)) (
      entry_intro (Numbered (l.next_id + 1)) (c ∷ g) h _ _
        (
          omega arith,
          Numbered-delete (l.next_id + 1) (l.next_id + 1) _ (Numbered-suc l.next_id _ (v (c ∷ g))),
        )
        (Numbered-suc l.next_id _ (v h)))

without-IsNumbered :
    (g : Bytes) (id : ℕ) (o : Option (Table Pair)) (l : LiveStreams)
    → Numbered l.next_id (entries o)
    → IsNumbered l
    → IsNumbered (without g id o l)
unfolding streams_of
without-IsNumbered g id none l w v h = v h
without-IsNumbered g id (some t) l w v h =
    subst (Numbered l.next_id) (sym (entries-keep_entry g h (delete id t) l.by_grant))
      (entry_intro (Numbered l.next_id) g h _ _ (Numbered-delete l.next_id id t w) (v h))

release-IsNumbered : (r : Release) (l : LiveStreams) → IsNumbered l → IsNumbered (release r l)
unfolding release streams_of
release-IsNumbered nothing l v = v
release-IsNumbered (removes g id) l v = without-IsNumbered g id (find g l.by_grant) l (v g) v

collect-IsNumbered :
    (ids : List Bytes) (l : LiveStreams) → IsNumbered l → IsNumbered (collect ids l).0
unfolding collect streams_of
collect-IsNumbered [] l v = v
collect-IsNumbered (g ∷ ids) l v =
    collect-IsNumbered ids (record l { by_grant = erase g l.by_grant })
      (λ h. elim (Bool-cases (bytes_eq g h)) [
        | inl e ↦ rw (find-erase g h l.by_grant, e) tt
        | inr e ↦ rw (find-erase g h l.by_grant, e) (v h)
      ])

-- What the relay does with its register.
pub data Event : Type 0 where
  adds : Bytes → ℕ → ℕ → Event
  releases : Release → Event
  terminates : List Bytes → Reason → Event

unfoldable pub step : Event → LiveStreams → LiveStreams
unfolding add release terminate
step (adds g operator agent) l = (add g operator agent l).0
step (releases r) l = release r l
step (terminates ids reason) l = (terminate ids reason l).live

unfoldable pub run : List Event → LiveStreams → LiveStreams
unfolding step
run [] l = l
run (e ∷ es) l = run es (step e l)

step-IsNumbered : (e : Event) (l : LiveStreams) → IsNumbered l → IsNumbered (step e l)
unfolding step terminate
step-IsNumbered (adds g o a) l v = add-IsNumbered g o a l v
step-IsNumbered (releases r) l v = release-IsNumbered r l v
step-IsNumbered (terminates ids reason) l v = collect-IsNumbered ids l v

run-IsNumbered : (es : List Event) (l : LiveStreams) → IsNumbered l → IsNumbered (run es l)
unfolding run
run-IsNumbered [] l v = v
run-IsNumbered (e ∷ es) l v = run-IsNumbered es (step e l) (step-IsNumbered e l v)

new-IsNumbered : IsNumbered new_live_streams
unfolding new_live_streams streams_of find
new-IsNumbered h = tt

-- What a release of the stream just added leaves, for the grant and the others.
undone :
    (g h : Bytes) (m : Named (Table Pair)) (x : Table Pair)
    → entries (find h (keep_entry g (entries (find g m)) (put g x m))) ≡ entries (find h m)
undone g h m x = elim (Bool-cases (bytes_eq g h)) [
  | inl e ↦
      entries-keep_entry g h (entries (find g m)) (put g x m)
      ∙ (rw e refl ∙ ap (λ z. entries (find z m)) (bytes_eq→eq g h e))
  | inr e ↦
      entries-keep_entry g h (entries (find g m)) (put g x m)
      ∙ (rw e refl ∙ (entries-put g h x m ∙ rw e refl))
]

add-release :
    (g h : Bytes) (operator agent : ℕ) (l : LiveStreams)
    → IsNumbered l
    → let (t, r) = add g operator agent l in streams_of h (release r t) ≡ streams_of h l
unfolding add release streams_of
add-release [] h o a l v = refl
add-release (c ∷ g) h o a l v =
    let m = l.by_grant in
    let p : Pair = record { operator = o; agent = a } in
    let t = streams_of (c ∷ g) l in
    let x = insert (l.next_id + 1) p t in
    let found : find (c ∷ g) (put (c ∷ g) x m) ≡ some x =
      find-put (c ∷ g) (c ∷ g) x m ∙ rw (bytes_eq_refl (c ∷ g)) refl in
    rw (found, delete-insert_fresh l.next_id p t (v (c ∷ g))) (undone (c ∷ g) h m x)

-- Whatever the register has seen, a stream that is added and released leaves the streams of every
-- grant as they were.
pub release_undoes :
    (es : List Event) (g h : Bytes) (operator agent : ℕ)
    → let l = run es new_live_streams in
      let (t, r) = add g operator agent l in streams_of h (release r t) ≡ streams_of h l
release_undoes es g h o a =
    add-release g h o a (run es new_live_streams)
      (run-IsNumbered es new_live_streams new-IsNumbered)
