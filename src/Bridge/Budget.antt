-- ===== src/Bridge/Budget.antt =====
-- The byte budget of a joined pair, and the order of its bytes (internal/bridge/bridge.go).
use secure_access_relay.Common.{
  ℕ, ◌+◌, ◌<◌, ◌≤◌, Bool, if_intro, Bytes, length, take, length-append, subst, List, [], ◌∷◌,
  Option, none, some, ◌≡◌, refl, sym, ap, arith, inl, inr, ◌⊎◌,
}
use secure_access_relay.Proto.Reason.{Reason}
use secure_access_relay.Bridge.{
  ReadEnd, Phase, reading, writing, done, Way, take_budget, read_into, read_in, on_read, wrote_in,
  on_write, Side, side_a, side_b, Kinds, Join, new_join, settle, settle_once, abort_reason, ended,
  is_done, Event, a_read, b_read, a_wrote, b_wrote, step, run,
}
use secure_access_relay.Bridge.Chunks.{
  Delivers, pending, IsCut, length-take_most, after_read-Delivers, claim-Delivers,
  pending-after_read, uncut-after_read, pending-claim, IsCut-claim, after_write-Delivers,
  pending-after_write, IsCut-after_write,
}

module _ (max_bytes : ℕ) (limited : 0 < max_bytes) where
  take_budget_lem :
      (spent want : ℕ)
      → spent ≤ max_bytes
      → let g = take_budget max_bytes spent want in
        (g.allowed ≤ want)
        × (spent + g.allowed ≡ g.spent)
        × (g.spent ≤ max_bytes)
        × ((g.allowed ≡ want) ⊎ (g.spent ≡ max_bytes))
  unfolding take_budget
  take_budget_lem spent want h = ground arith

  -- A read keeps a direction in order, and what it adds to be written is claimed of the budget.
  record IsRead (w : Way) (p : Phase) (spent : ℕ) (r : Way × ℕ) : Type 0 where
    delivers : Delivers r.0.read r.0.moved r.0.phase
    moved : r.0.moved ≡ w.moved
    claimed : pending r.0.phase + spent ≤ pending p + r.1
    grows : spent ≤ r.1
    within : r.1 ≤ max_bytes
    cut_full : IsCut r.0.phase → r.1 ≡ max_bytes

  read_into-IsRead :
      (spent : ℕ) (b : Bytes) (e : Option ReadEnd) (w : Way)
      → w.moved ≡ w.read
      → spent ≤ max_bytes
      → IsRead w reading spent (read_into max_bytes spent b e w)
  read_into-IsRead spent [] e w m h = record {
    delivers = rw m (after_read-Delivers w.read e);
    moved = refl;
    claimed = omega (arith, pending-after_read e);
    grows = omega arith;
    within = h;
    cut_full = λ c. absurd (uncut-after_read e c);
  }
  read_into-IsRead spent (x ∷ b) e w m h =
      let (le, sum, top, or) = take_budget_lem spent (length (x ∷ b)) h in
      let g = take_budget max_bytes spent (length (x ∷ b)) in
      record {
        delivers = rw m (claim-Delivers w.read (x ∷ b) e g.allowed le);
        moved = refl;
        claimed = omega (arith, pending-claim (x ∷ b) e g.allowed le);
        grows = omega arith;
        within = top;
        cut_full = λ c. elim or [
          | inl all ↦ absurd (IsCut-claim (x ∷ b) e g.allowed c all)
          | inr full ↦ full
        ];
      }

  -- A direction in its place: in order, and with the whole budget claimed if it was cut.
  pub record IsWay (w : Way) (spent : ℕ) : Type 0 where
    pub delivers : Delivers w.read w.moved w.phase
    pub cut_full : IsCut w.phase → spent ≡ max_bytes

  -- What a direction has moved and is about to move.
  abbrev pub held : Way → ℕ
  held w = length w.moved + pending w.phase

  -- Both directions, within one budget.
  pub record Inv (j : Join) : Type 0 where
    pub a_to_b : IsWay j.a_to_b j.spent
    pub b_to_a : IsWay j.b_to_a j.spent
    pub claimed : held j.a_to_b + held j.b_to_a ≤ j.spent
    pub within : j.spent ≤ max_bytes

  -- A round of one direction: it stays in its place, claims what it adds, and a budget that was
  -- full stays full.
  record IsRound (w w' : Way) (spent spent' : ℕ) : Type 0 where
    way : IsWay w' spent'
    claimed : held w' + spent ≤ held w + spent'
    grows : spent ≤ spent'
    within : spent' ≤ max_bytes

  idle-IsRound : (w : Way) (spent : ℕ) → IsWay w spent → spent ≤ max_bytes → IsRound w w spent spent
  idle-IsRound w spent v h = record {
    way = v;
    claimed = omega arith;
    grows = omega arith;
    within = h;
  }

  on_read-IsRound :
      (spent : ℕ) (b : Bytes) (e : Option ReadEnd) (w : Way)
      → IsWay w spent
      → spent ≤ max_bytes
      → let r = on_read max_bytes spent b e w in IsRound w r.0 spent r.1
  unfolding on_read
  on_read-IsRound spent b e w v h = go w.phase refl
    where
      go :
          (p : Phase)
          → w.phase ≡ p
          → let r = read_in max_bytes spent b e w p in IsRound w r.0 spent r.1
      go reading q =
          let r = read_into-IsRead spent b e w (subst (Delivers w.read w.moved) q v.delivers) h in
          record {
            way = record { delivers = r.delivers; cut_full = r.cut_full };
            claimed = omega (arith, r.claimed, ap length r.moved, ap pending q);
            grows = r.grows;
            within = r.within;
          }
      go (writing c a) q = idle-IsRound w spent v h
      go (done x) q = idle-IsRound w spent v h

  on_write-IsRound :
      (spent n : ℕ) (failed : Bool) (w : Way)
      → IsWay w spent
      → spent ≤ max_bytes
      → IsRound w (on_write n failed w) spent spent
  unfolding on_write
  on_write-IsRound spent n failed w v h = go w.phase refl
    where
      go : (p : Phase) → w.phase ≡ p → IsRound w (wrote_in n failed w p) spent spent
      go reading q = idle-IsRound w spent v h
      go (done x) q = idle-IsRound w spent v h
      go (writing c a) q = record {
        way = record {
          delivers =
              after_write-Delivers w.read w.moved c n failed a
                (subst (Delivers w.read w.moved) q v.delivers);
          cut_full = λ k. v.cut_full (subst IsCut (sym q) (IsCut-after_write n failed c a k));
        };
        claimed = omega (
          arith,
          length-append w.moved (take n c),
          length-take_most n c,
          pending-after_write n failed c a,
          ap pending q,
        );
        grows = omega arith;
        within = h;
      }

  -- The calls that end a connection leave the directions and the budget as they are.
  settle-Inv : (k : Kinds) (dst : Side) (q : Phase) (j : Join) → Inv j → Inv (settle k dst q j)
  settle-Inv k dst reading j v = v
  settle-Inv k dst (writing c a) j v = v
  settle-Inv k dst (done e) j v = ended-Inv (abort_reason e)
    where
      ended-Inv : (o : Option Reason) → Inv (ended k dst e o j)
      ended-Inv none = record {
        a_to_b = v.a_to_b;
        b_to_a = v.b_to_a;
        claimed = v.claimed;
        within = v.within;
      }
      ended-Inv (some r) = record {
        a_to_b = v.a_to_b;
        b_to_a = v.b_to_a;
        claimed = v.claimed;
        within = v.within;
      }

  settle_once-Inv :
      (k : Kinds) (dst : Side) (p q : Phase) (j : Join) → Inv j → Inv (settle_once k dst p q j)
  settle_once-Inv k dst p q j v = if_intro Inv (is_done p) (λ _. v) (λ _. settle-Inv k dst q j v)

  grown : (w : Way) (s t : ℕ) → IsWay w s → s ≤ t → t ≤ max_bytes → IsWay w t
  grown w s t v le top = record {
    delivers = v.delivers;
    cut_full = λ c. omega (arith, v.cut_full c);
  }

  step-Inv : (k : Kinds) (e : Event) (j : Join) → Inv j → Inv (step k max_bytes e j)
  unfolding step
  step-Inv k (a_read b e) j v =
      let r = on_read-IsRound j.spent b e j.a_to_b v.a_to_b v.within in
      settle_once-Inv k side_b _ _ _ (record {
        a_to_b = r.way;
        b_to_a = grown j.b_to_a j.spent _ v.b_to_a r.grows r.within;
        claimed = omega (arith, v.claimed, r.claimed);
        within = r.within;
      })
  step-Inv k (b_read b e) j v =
      let r = on_read-IsRound j.spent b e j.b_to_a v.b_to_a v.within in
      settle_once-Inv k side_a _ _ _ (record {
        a_to_b = grown j.a_to_b j.spent _ v.a_to_b r.grows r.within;
        b_to_a = r.way;
        claimed = omega (arith, v.claimed, r.claimed);
        within = r.within;
      })
  step-Inv k (b_wrote n failed) j v =
      let r = on_write-IsRound j.spent n failed j.a_to_b v.a_to_b v.within in
      settle_once-Inv k side_b _ _ _ (record {
        a_to_b = r.way;
        b_to_a = v.b_to_a;
        claimed = omega (arith, v.claimed, r.claimed);
        within = v.within;
      })
  step-Inv k (a_wrote n failed) j v =
      let r = on_write-IsRound j.spent n failed j.b_to_a v.b_to_a v.within in
      settle_once-Inv k side_a _ _ _ (record {
        a_to_b = v.a_to_b;
        b_to_a = r.way;
        claimed = omega (arith, v.claimed, r.claimed);
        within = v.within;
      })

  run-Inv : (k : Kinds) (es : List Event) (j : Join) → Inv j → Inv (run k max_bytes es j)
  unfolding run
  run-Inv k [] j v = v
  run-Inv k (e ∷ es) j v = run-Inv k es (step k max_bytes e j) (step-Inv k e j v)

  new_join-Inv : Inv new_join
  unfolding new_join
  new_join-Inv = record {
    a_to_b = record { delivers = refl; cut_full = λ c. absurd c };
    b_to_a = record { delivers = refl; cut_full = λ c. absurd c };
    claimed = omega arith;
    within = omega arith;
  }

  -- The budget holds: what was moved is within it, what is claimed is within it, and a direction is
  -- cut short only when all of it is claimed.
  pub record IsWithin (j : Join) : Type 0 where
    pub moved : length j.a_to_b.moved + length j.b_to_a.moved ≤ max_bytes
    pub claimed : j.spent ≤ max_bytes
    pub a_to_b_cut : IsCut j.a_to_b.phase → j.spent ≡ max_bytes
    pub b_to_a_cut : IsCut j.b_to_a.phase → j.spent ≡ max_bytes

  -- With a budget of at least one byte, in any order of events, the two directions together never move
  -- more bytes than the budget, and a direction is cut short only when all of the budget has been
  -- claimed.
  pub budget_kept : (k : Kinds) (es : List Event) → IsWithin (run k max_bytes es new_join)
  budget_kept k es =
      let v = run-Inv k es new_join new_join-Inv in
      record {
        moved = omega (arith, v.claimed, v.within);
        claimed = v.within;
        a_to_b_cut = v.a_to_b.cut_full;
        b_to_a_cut = v.b_to_a.cut_full;
      }

  -- With a budget of at least one byte, in any order of events, what each direction has moved is the
  -- first bytes of what it read, and all of them when it has ended in good order.
  pub delivered_in_order :
      (k : Kinds) (es : List Event)
      → let j = run k max_bytes es new_join in
        Delivers j.a_to_b.read j.a_to_b.moved j.a_to_b.phase
        × Delivers j.b_to_a.read j.b_to_a.moved j.b_to_a.phase
  delivered_in_order k es =
      let v = run-Inv k es new_join new_join-Inv in (v.a_to_b.delivers, v.b_to_a.delivers)
