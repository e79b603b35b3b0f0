-- ===== src/Bridge/Chunks.antt =====
-- The chunks that a direction reads and writes (internal/bridge/bridge.go, `copyOneWay`).
use secure_access_relay.Common.{
  ℕ, ◌≤◌, ltb, ◌==◌, ==_iff, Bool, if_intro, ltb→lt, ltb→le, ◌≢◌, Bytes, length, take, drop,
  length-take-le, length-drop, take-append-drop, [], ◌∷◌, ◌++◌, append_assoc, append-nil, Option,
  none, some, ◌≡◌, refl, sym, ◌∙◌, ap, arith,
}
use secure_access_relay.Bridge.{
  ReadEnd, eof, read_error, After, continue, cut, clean, exhausted, Phase, reading, writing, done,
  after_read, claim, after_write,
}

-- What a direction has delivered of what it read: all of it, or all but a chunk under way, and in
-- every case its first bytes.
abbrev pub Delivers : Bytes → Bytes → Phase → Type 0
Delivers read moved reading = moved ≡ read
Delivers read moved (writing c (continue e)) = moved ++ c ≡ read
Delivers read moved (writing c cut) = (rest : Bytes) × (moved ++ (c ++ rest) ≡ read)
Delivers read moved (done clean) = moved ≡ read
Delivers read moved (done e) = (rest : Bytes) × (moved ++ rest ≡ read)

abbrev pub pending : Phase → ℕ
pending (writing c after) = length c
pending _ = 0

-- The budget has cut the direction short.
abbrev pub IsCut : Phase → Type 0
IsCut (writing c cut) = Unit
IsCut (done exhausted) = Unit
IsCut _ = ⊥

pub parts : (m c : Bytes) (n : ℕ) → (m ++ take n c) ++ drop n c ≡ m ++ c
parts m c n = append_assoc m (take n c) (drop n c) ∙ ap (λ z. m ++ z) (take-append-drop n c)

pub length-take_most : (n : ℕ) (c : Bytes) → length (take n c) ≤ length c
length-take_most n c = omega (arith, length-drop n c)

pub take_all : (c : Bytes) → take (length c) c ≡ c
take_all [] = refl
take_all (x ∷ c) = ap (λ z. x ∷ z) (take_all c)

pub after_read-Delivers : (b : Bytes) (e : Option ReadEnd) → Delivers b b (after_read e)
after_read-Delivers b none = refl
after_read-Delivers b (some eof) = refl
after_read-Delivers b (some read_error) = ([], append-nil b)

pub claim-Delivers :
    (read b : Bytes) (e : Option ReadEnd) (n : ℕ)
    → n ≤ length b
    → Delivers (read ++ b) read (claim b e n)
claim-Delivers read b e n h =
    if_intro (Delivers (read ++ b) read) (ltb n (length b))
      (λ _.
        if_intro (Delivers (read ++ b) read) (n == 0) (λ _. (b, refl))
          (λ _. (drop n b, ap (λ z. read ++ z) (take-append-drop n b))))
      (λ _. refl)

pub pending-after_read : (e : Option ReadEnd) → pending (after_read e) ≡ 0
pending-after_read none = refl
pending-after_read (some eof) = refl
pending-after_read (some read_error) = refl

pub uncut-after_read : (e : Option ReadEnd) → ¬ IsCut (after_read e)
uncut-after_read none c = c
uncut-after_read (some eof) c = c
uncut-after_read (some read_error) c = c

pub pending-claim :
    (b : Bytes) (e : Option ReadEnd) (n : ℕ) → n ≤ length b → pending (claim b e n) ≤ n
pending-claim b e n h =
    if_intro (λ p. pending p ≤ n) (ltb n (length b))
      (λ _. if_intro (λ p. pending p ≤ n) (n == 0) (λ _. omega arith) (λ _. length-take-le n b))
      (λ k. ltb→le n (length b) k)

pub IsCut-claim : (b : Bytes) (e : Option ReadEnd) (n : ℕ) → IsCut (claim b e n) → n ≢ length b
IsCut-claim b e n =
    if_intro (λ p. IsCut p → n ≢ length b) (ltb n (length b))
      (λ k _. λ q. omega (arith, ltb→lt n (length b) k, q)) (λ _ c. absurd c)

pub after_write-Delivers :
    (read moved c : Bytes) (n : ℕ) (failed : Bool) (after : After)
    → Delivers read moved (writing c after)
    → Delivers read (moved ++ take n c) (after_write n failed c after)
after_write-Delivers read moved c n failed cut (rest, e) = (
  drop n c ++ rest,
  sym (append_assoc (moved ++ take n c) (drop n c) rest)
      ∙ (ap (λ z. z ++ rest) (parts moved c n) ∙ (append_assoc moved c rest ∙ e)),
)
after_write-Delivers read moved c n failed (continue e) d =
    if_intro (Delivers read (moved ++ take n c)) failed (λ _. (drop n c, parts moved c n ∙ d))
      (λ _.
        if_intro (Delivers read (moved ++ take n c)) (n == length c)
          (λ all.
            let q : moved ++ take n c ≡ read =
              rw (==_iff n (length c) all) (ap (λ z. moved ++ z) (take_all c) ∙ d) in
            rw q (after_read-Delivers read e))
          (λ _. (drop n c, parts moved c n ∙ d)))

pub pending-after_write :
    (n : ℕ) (failed : Bool) (c : Bytes) (after : After) → pending (after_write n failed c after) ≡ 0
pending-after_write n failed c cut = refl
pending-after_write n failed c (continue e) =
    if_intro (λ p. pending p ≡ 0) failed (λ _. refl)
      (λ _. if_intro (λ p. pending p ≡ 0) (n == length c) (λ _. pending-after_read e) (λ _. refl))

-- The cut is known before the write of the last chunk.
pub IsCut-after_write :
    (n : ℕ) (failed : Bool) (c : Bytes) (after : After)
    → IsCut (after_write n failed c after)
    → IsCut (writing c after)
IsCut-after_write n failed c cut k = tt
IsCut-after_write n failed c (continue e) k =
    if_intro (λ p. IsCut p → ⊥) failed (λ _ z. z)
      (λ _. if_intro (λ p. IsCut p → ⊥) (n == length c) (λ _. uncut-after_read e) (λ _ z. z)) k
