-- ===== src/Permits.antt =====
-- crates/post-cortex-embeddings/src/embeddings/concurrency.rs: the controller that hands out
-- permits, run by any number of threads. A step of a thread is one access of an atomic; a
-- schedule names the thread that steps next and whether a weak exchange fails spuriously.
pub mod Bound
use post_cortex.Base.{ℕ, zero, suc, ◌+◌, Bool, true, false, List, [], ◌∷◌, if◌then◌else◌, leb, eqb}
use post_cortex.Base.Words.{wrapping_sub}

pub record Controller : Type 0 where
  pub current_operations : ℕ
  pub max_operations : ℕ
  pub active : Bool

-- Where a thread stands in `try_acquire`, or that it holds a permit.
pub data Thread : Type 0 where
  idle : Thread
  looping : Thread
  loaded : ℕ → Thread
  holding : Thread

unfoldable pub new : ℕ → Controller
new max_operations = record {
  current_operations = 0;
  max_operations = max_operations;
  active = true;
}

unfoldable pub release : Controller → Controller
release c = record c { current_operations = wrapping_sub c.current_operations 1 }

-- The weak exchange of a loaded value for the next one.
unfoldable pub exchange : Bool → Controller → ℕ → Controller × Thread
exchange spurious c current =
    if spurious
    then (c, looping)
    else if eqb c.current_operations current
    then (record c { current_operations = current + 1 }, holding)
    else (c, looping)

unfoldable pub advance : Bool → Controller → Thread → Controller × Thread
advance spurious c idle = if c.active then (c, looping) else (c, idle)
advance spurious c looping =
    if leb c.max_operations c.current_operations
    then (c, idle)
    else (c, loaded c.current_operations)
advance spurious c (loaded current) = exchange spurious c current
advance spurious c holding = (release c, idle)

-- The thread at a position takes a step; there may be none.
unfoldable pub advance_at : Bool → ℕ → Controller → List Thread → Controller × List Thread
advance_at spurious i c [] = (c, [])
advance_at spurious zero c (t ∷ ts) = ((advance spurious c t).0, (advance spurious c t).1 ∷ ts)
advance_at spurious (suc i) c (t ∷ ts) =
    let rest = advance_at spurious i c ts in (rest.0, t ∷ rest.1)

unfoldable pub run : List (ℕ × Bool) → Controller → List Thread → Controller × List Thread
run [] c ts = (c, ts)
run ((i, spurious) ∷ schedule) c ts =
    let next = advance_at spurious i c ts in run schedule next.0 next.1
