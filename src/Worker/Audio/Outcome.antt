-- ===== src/Worker/Audio/Outcome.antt =====
-- Results that are a value or a failure of the worker's own, step by step through the code.
use free_whisper.Prelude.{
  ℕ, ◌+◌, ◌-◌, ◌≤◌, ◌≡◌, refl, sym, subst, Bool, true, false, List, Option, none, some, arith,
  length, take, drop, Result, ok, err, ok_or, ◌>>=◌, ◌>>◌, refuse_if,
}
use free_whisper.Worker.Failure.{ApiFailure}
use free_whisper.Worker.Audio.{Fault, refused, sub, read_le}

-- A result that is a value with a property, or a failure that the worker answers with.
unfoldable pub Answers : {A : Type 0} → (A → Type 0) → Result Fault A → Type 0
Answers P (ok a) = P a
Answers P (err e) = (f : ApiFailure) × (e ≡ refused f)

pub Answers->>= :
    {A B : Type 0} (P : A → Type 0) (Q : B → Type 0) (m : Result Fault A) (f : A → Result Fault B)
    → Answers P m
    → ((a : A) → P a → Answers Q (f a))
    → Answers Q (m >>= f)
unfolding Answers
Answers->>= P Q (ok a) f h k = k a h
Answers->>= P Q (err e) f h k = h

abbrev pub Any : {A : Type 0} → A → Type 0
Any a = Unit {0}

pub Answers-ok : {A : Type 0} (a : A) → Answers Any (ok a)
unfolding Answers
Answers-ok a = tt

sub-eq-ok :
    (start end : ℕ) (bytes : List ℕ)
    → start ≤ end
    → end ≤ length bytes
    → sub start end bytes ≡ ok (take (end - start) (drop start bytes))
unfolding sub
sub-eq-ok start end bytes h k = ground arith

pub sub-Answers :
    (start end : ℕ) (bytes : List ℕ)
    → start ≤ end
    → end ≤ length bytes
    → Answers Any (sub start end bytes)
unfolding Answers
sub-Answers start end bytes h k = subst (Answers Any) (sym (sub-eq-ok start end bytes h k)) tt

pub read_le-Answers :
    (width at : ℕ) (bytes : List ℕ)
    → at + width ≤ length bytes
    → Answers Any (read_le width at bytes)
unfolding read_le Answers
read_le-Answers width at bytes h =
    Answers->>= Any Any (sub at (at + width) bytes) _
      (sub-Answers at (at + width) bytes (omega arith) h) (λ a p. tt)

pub refuse_if-Answers :
    (test : Bool) (f : ApiFailure) → Answers (λ u. test ≡ false) (refuse_if test (refused f))
unfolding Answers
refuse_if-Answers true f = (f, refl)
refuse_if-Answers false f = refl

pub ok_or->>=-Answers :
    {A B : Type 0} (o : Option A) (f : ApiFailure) (k : A → Result Fault B)
    → ((a : A) → Answers Any (k a))
    → Answers Any (ok_or o (refused f) >>= k)
unfolding Answers
ok_or->>=-Answers none f k h = (f, refl)
ok_or->>=-Answers (some a) f k h = h a

pub refuse_if->>-Answers :
    (test : Bool) (f : ApiFailure) (k : Result Fault ℕ)
    → Answers Any k
    → Answers Any (refuse_if test (refused f) >> k)
unfolding Answers
refuse_if->>-Answers true f k h = (f, refl)
refuse_if->>-Answers false f k h = h
