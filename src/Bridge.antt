-- ===== src/Bridge.antt =====
-- internal/bridge: two connections are joined, and bytes copied between them under one budget.
pub mod Chunks
pub mod Budget
pub mod Teardown
use secure_access_relay.Common.{
  ℕ, ◌+◌, ◌-◌, ltb, leb, ◌==◌, ◌&&◌, Bool, true, false, if◌then◌else◌, Bytes, length, take, List,
  [], ◌∷◌, ◌++◌, Option, none, some,
}
use secure_access_relay.Proto.Reason
use secure_access_relay.Proto.Reason.{Reason}

-- How a `Read` ends when it does not only return bytes.
pub data ReadEnd : Type 0 where
  eof read_error : ReadEnd

-- What comes after the write of a chunk: the next read, the end that its read met, or the cut.
pub data After : Type 0 where
  continue : Option ReadEnd → After
  cut : After

-- How `copyOneWay` returns.
pub data End : Type 0 where
  clean exhausted write_failed short_write read_failed : End

pub data Phase : Type 0 where
  reading : Phase
  writing : Bytes → After → Phase
  done : End → Phase

-- One direction: what its source returned so far, what its destination took, and where it is.
pub record Way : Type 0 where
  pub read : Bytes
  pub moved : Bytes
  pub phase : Phase

abbrev pub new_way : Way
new_way = record { read = []; moved = []; phase = reading }

pub record Grant : Type 0 where
  pub allowed : ℕ
  pub spent : ℕ

-- `take`, whose compare-and-swap makes it one step; a budget of 0 is none.
unfoldable pub take_budget : ℕ → ℕ → ℕ → Grant
take_budget max_bytes spent want =
    if max_bytes == 0
    then record { allowed = want; spent = spent }
    else if leb max_bytes spent
    then record { allowed = 0; spent = spent }
    else let grant = if ltb (max_bytes - spent) want then max_bytes - spent else want in
      record { allowed = grant; spent = spent + grant }

abbrev pub after_read : Option ReadEnd → Phase
after_read none = reading
after_read (some eof) = done clean
after_read (some read_error) = done read_failed

abbrev pub claim : Bytes → Option ReadEnd → ℕ → Phase
claim b e allowed =
    if ltb allowed (length b)
    then if allowed == 0 then done exhausted else writing (take allowed b) cut
    else writing b (continue e)

abbrev pub read_into : ℕ → ℕ → Bytes → Option ReadEnd → Way → Way × ℕ
read_into max_bytes spent [] e w = (record w { phase = after_read e }, spent)
read_into max_bytes spent (x ∷ b) e w =
    let g = take_budget max_bytes spent (length (x ∷ b)) in
    (record w { read = w.read ++ x ∷ b; phase = claim (x ∷ b) e g.allowed }, g.spent)

abbrev pub read_in : ℕ → ℕ → Bytes → Option ReadEnd → Way → Phase → Way × ℕ
read_in max_bytes spent b e w reading = read_into max_bytes spent b e w
read_in max_bytes spent b e w _ = (w, spent)

-- `src.Read` returns, and its bytes are claimed of the budget.
unfoldable pub on_read : ℕ → ℕ → Bytes → Option ReadEnd → Way → Way × ℕ
unfolding take_budget
on_read max_bytes spent b e w = read_in max_bytes spent b e w w.phase

abbrev pub after_write : ℕ → Bool → Bytes → After → Phase
after_write n failed chunk cut = done exhausted
after_write n failed chunk (continue e) =
    if failed
    then done write_failed
    else if n == length chunk
    then after_read e
    else done short_write

abbrev pub wrote_in : ℕ → Bool → Way → Phase → Way
wrote_in n failed w (writing chunk after) = record w {
  moved = w.moved ++ take n chunk;
  phase = after_write n failed chunk after;
}
wrote_in n failed w _ = w

-- `dst.Write` returns: it took the first n bytes, and may have failed.
unfoldable pub on_write : ℕ → Bool → Way → Way
on_write n failed w = wrote_in n failed w w.phase

pub data Side : Type 0 where
  side_a side_b : Side

-- The calls that `JoinWithBudget` makes on its two connections to end them.
pub data Call : Type 0 where
  call_reset : Side → Reason → Call
  call_close_write call_close : Side → Call

-- Which of the two can be reset, and which can end one direction alone.
pub record Kinds : Type 0 where
  pub resetter : Side → Bool
  pub close_writer : Side → Bool

unfoldable pub reset : Kinds → Side → Reason → Call
reset k c reason = if k.resetter c then call_reset c reason else call_close c

unfoldable pub half_close : Kinds → Side → Call
half_close k c = if k.close_writer c then call_close_write c else call_close c

-- The reason for an end that breaks the pair, and none for the end of one direction.
abbrev pub abort_reason : End → Option Reason
abort_reason clean = none
abort_reason exhausted = some Reason.limit_bytes_exceeded
abort_reason _ = some Reason.shutdown

pub record Join : Type 0 where
  pub a_to_b : Way
  pub b_to_a : Way
  pub spent : ℕ
  pub first : Option End
  pub calls : List Call

unfoldable pub new_join : Join
new_join = record { a_to_b = new_way; b_to_a = new_way; spent = 0; first = none; calls = [] }

-- `record`: the first error stays.
abbrev pub keep_first : End → Option End → Option End
keep_first e none = some e
keep_first e (some f) = some f

abbrev pub ended : Kinds → Side → End → Option Reason → Join → Join
ended k dst e none j = record j { calls = j.calls ++ half_close k dst ∷ [] }
ended k dst e (some reason) j = record j {
  first = keep_first e j.first;
  calls = j.calls ++ reset k side_a reason ∷ reset k side_b reason ∷ [];
}

-- What the goroutine of a direction does when its copy has returned.
abbrev pub settle : Kinds → Side → Phase → Join → Join
settle k dst (done e) j = ended k dst e (abort_reason e) j
settle k dst _ j = j

abbrev pub is_done : Phase → Bool
is_done (done e) = true
is_done _ = false

-- A direction that has returned does nothing more.
abbrev pub settle_once : Kinds → Side → Phase → Phase → Join → Join
settle_once k dst before after j = if is_done before then j else settle k dst after j

-- What happens next, in any order: the two directions are two goroutines.
pub data Event : Type 0 where
  a_read b_read : Bytes → Option ReadEnd → Event
  b_wrote a_wrote : ℕ → Bool → Event

unfoldable pub step : Kinds → ℕ → Event → Join → Join
unfolding on_read on_write reset half_close
step k max_bytes (a_read b e) j =
    let (w, spent) = on_read max_bytes j.spent b e j.a_to_b in
    settle_once k side_b j.a_to_b.phase w.phase (record j { a_to_b = w; spent = spent })
step k max_bytes (b_read b e) j =
    let (w, spent) = on_read max_bytes j.spent b e j.b_to_a in
    settle_once k side_a j.b_to_a.phase w.phase (record j { b_to_a = w; spent = spent })
step k max_bytes (b_wrote n failed) j =
    let w = on_write n failed j.a_to_b in
    settle_once k side_b j.a_to_b.phase w.phase (record j { a_to_b = w })
step k max_bytes (a_wrote n failed) j =
    let w = on_write n failed j.b_to_a in
    settle_once k side_a j.b_to_a.phase w.phase (record j { b_to_a = w })

unfoldable pub run : Kinds → ℕ → List Event → Join → Join
unfolding step
run k max_bytes [] j = j
run k max_bytes (e ∷ es) j = run k max_bytes es (step k max_bytes e j)

-- After both directions have returned, both connections are closed.
unfoldable pub finish : Join → Option Join
finish j =
    if is_done j.a_to_b.phase && is_done j.b_to_a.phase
    then some (record j { calls = j.calls ++ call_close side_a ∷ call_close side_b ∷ [] })
    else none
