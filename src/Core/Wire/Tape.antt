-- ===== src/Core/Wire/Tape.antt =====
-- What a successful call reads and writes, for the streams of crates/rb-core and all that is built
-- on them: a small logic of effects, composed along `>>=`.
use rust_backup.Prelude.{◌≡◌, refl, ap, sym, ◌∙◌, [], ◌++◌, append-nil, append_assoc}
use rust_backup.Core.Error.{Result, ok, Action, ◌>>=◌}
use rust_backup.Core.Wire.{Bytes}

-- What is seen of a state: the bytes still to read, those written so far, and what else the state
-- holds (the counters, a backend).
pub record Tape (T N : Type 0) : Type 0 where
  pub pending : T → Bytes
  pub sent : T → Bytes
  pub note : T → N

module _ {T N : Type 0} (v : Tape T N) where
  -- The call `r`, begun in state `s`, gives `a`, leaves `left` to read, has written `out`, and the
  -- rest of the state stands at `meter`.
  pub record Does {ℓ} {A : Type ℓ} (r : Result A × T) (s : T) (a : A) (left out : Bytes) (meter : N)
      : Type ℓ where
    pub last : T
    pub result : r ≡ (ok a, last)
    pub input : v.pending last ≡ left
    pub output : v.sent last ≡ v.sent s ++ out
    pub counted : v.note last ≡ meter

  pub pure-Does {ℓ} : {A : Type ℓ} (a : A) (s : T) → Does (ok a, s) s a (v.pending s) [] (v.note s)
  pure-Does a s = record {
    last = s;
    result = refl;
    input = refl;
    output = sym (append-nil _);
    counted = refl;
  }

  -- The same with its parts rewritten.
  pub recast-Does {ℓ} :
      {A : Type ℓ} {r r' : Result A × T} {s : T} {a : A} {left left' out out' : Bytes} {m m' : N}
      → Does r s a left out m
      → r' ≡ r
      → left ≡ left'
      → out ≡ out'
      → m ≡ m'
      → Does r' s a left' out' m'
  recast-Does {s} d e l o c = record {
    last = d.last;
    result = e ∙ d.result;
    input = d.input ∙ l;
    output = d.output ∙ ap (λ x. v.sent s ++ x) o;
    counted = d.counted ∙ c;
  }

  -- Two calls in a row.
  pub bind-Does {ℓ κ} :
      {A : Type ℓ} {B : Type κ} (m : Action T A) (f : A → Action T B) (s : T) {a : A} {b : B}
      {left left' out : Bytes} (out' : Bytes) {c c' : N}
      → (d : Does (m s) s a left out c) → Does (f a d.last) d.last b left' out' c'
      → Does ((m >>= f) s) s b left' (out ++ out') c'
  bind-Does m f s {out} out' d e = record {
    last = e.last;
    result = rw d.result e.result;
    input = e.input;
    output = e.output ∙ ap (λ x. x ++ out') d.output ∙ append_assoc (v.sent s) out out';
    counted = e.counted;
  }
