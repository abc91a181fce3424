-- ===== src/FifoBuf/Client.antt =====
-- Any sequence of calls on a buffer, against the bounded queue.
use mocp.Prelude.{
  ℕ, ◌-◌, ◌≡◌, refl, ap, ap₂, ◌∙◌, List, [], ◌∷◌, length, take, eq-nil_of_length, take-min, ◌++◌,
  arith,
}
use mocp.Queue
use mocp.Queue.{Op, put, get, peek, clear}
use mocp.FifoBuf
use mocp.FifoBuf.{FifoBuf, get_space}
use mocp.FifoBuf.Inv.{IsValid, clear-IsValid}
use mocp.FifoBuf.Refine.{contents, length-contents, put_refines}
use mocp.FifoBuf.Read.{get_refines, peek-get}

-- One call: the bytes that it took or returned, and the buffer after it.
pub step : FifoBuf → Op → List ℕ × FifoBuf
step b (put bytes) = let (n, b') = FifoBuf.put b bytes in (take n bytes, b')
step b (get n) = let (_, out, b') = FifoBuf.get b n in (out, b')
step b (peek n) = let (_, out) = FifoBuf.peek b n in (out, b)
step b clear = ([], FifoBuf.clear b)

pub run : FifoBuf → List Op → List (List ℕ)
run b [] = []
run b (o ∷ os) = let (r, b') = step b o in r ∷ run b' os

record Simulates (size : ℕ) (q : List ℕ) (o : Op) (r : List ℕ × FifoBuf) : Type 0 where
  valid : IsValid r.1
  size_same : r.1.size ≡ size
  result : r.0 ≡ (Queue.step size q o).0
  after : contents r.1 ≡ (Queue.step size q o).1

step-Simulates : (b : FifoBuf) (o : Op) → IsValid b → Simulates b.size (contents b) o (step b o)
unfolding step Queue.step FifoBuf.clear get_space
step-Simulates b (put bytes) v =
    let p = put_refines bytes v in
    let e : get_space b ≡ b.size - length (contents b) = omega (arith, length-contents b) in
    record {
      valid = p.2;
      size_same = p.3;
      result = take-min (get_space b) _ bytes (omega (arith, p.0)) ∙ ap (λ k. take k bytes) e;
      after = p.1 ∙ ap (λ k. contents b ++ take k bytes) e;
    }
step-Simulates b (get n) v =
    let g = get_refines n v in record { valid = g.3; size_same = g.4; result = g.1; after = g.2 }
step-Simulates b (peek n) v = record {
  valid = v;
  size_same = refl;
  result = ap (λ p. p.1) (peek-get b n) ∙ (get_refines n v).1;
  after = refl;
}
step-Simulates b clear v = record {
  valid = clear-IsValid v;
  size_same = refl;
  result = refl;
  after = eq-nil_of_length _ (length-contents (FifoBuf.clear b));
}

-- No sequence of puts, gets, peeks and clears tells a valid buffer from the bounded queue of its
-- bytes: every call takes or returns the same bytes.
pub run_refines :
    (b : FifoBuf) (os : List Op) → IsValid b → run b os ≡ Queue.run b.size (contents b) os
unfolding run Queue.run
run_refines b [] v = refl
run_refines b (o ∷ os) v =
    let s = step-Simulates b o v in
    ap₂ ◌∷◌ s.result
      (run_refines (step b o).1 os s.valid ∙ ap₂ (λ n q. Queue.run n q os) s.size_same s.after)
