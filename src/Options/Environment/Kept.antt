-- ===== src/Options/Environment/Kept.antt =====
-- Statements about the results of src/tracer_options.cpp that are not errors.
use dd_opentracing_cpp.Prelude.{Option, none, some, List, [], ◌∷◌, Text}
use dd_opentracing_cpp.Options.{TracerOptions}
use dd_opentracing_cpp.Options.Environment.{Result, ok, error, ◌>>=◌, on_value, Step, apply_steps}

-- What a result must be where it is not an error.
abbrev pub Kept {ℓ κ} : {D : Type 0} {A : Type ℓ} → (A → Type κ) → Result D A → Type κ
Kept P (ok a) = P a
Kept P (error e) = Unit

pub bind-Kept {ℓ κ} :
    {D : Type 0} {A B : Type ℓ} (P : A → Type κ) (Q : B → Type κ) (r : Result D A)
    (f : A → Result D B)
    → Kept P r
    → ((a : A) → P a → Kept Q (f a))
    → Kept Q (r >>= f)
bind-Kept P Q (ok a) f h k = k a h
bind-Kept P Q (error e) f h k = tt

pub any-Kept : {D A : Type 0} (r : Result D A) → Kept (λ _. Unit {0}) r
any-Kept (ok a) = tt
any-Kept (error e) = tt

pub on_value-Kept {ℓ κ} :
    {D : Type 0} {A : Type ℓ} (P : A → Type κ) (value : Option Text) (f : Text → A → Result D A)
    (o : A)
    → P o
    → ((text : Text) (a : A) → P a → Kept P (f text a))
    → Kept P (on_value value f o)
on_value-Kept P none f o h k = h
on_value-Kept P (some text) f o h k = k text o h

-- What every step keeps.
abbrev pub AllKeep : {D : Type 0} → (TracerOptions D → Type 0) → List (Step D) → Type 0
AllKeep P [] = Unit {0}
AllKeep {D} P ((value, f) ∷ steps) =
    ((text : Text) (o : TracerOptions D) → P o → Kept P (f text o)) × AllKeep P steps

pub apply_steps-Kept :
    {D : Type 0} (P : TracerOptions D → Type 0) (steps : List (Step D)) (o : TracerOptions D)
    → AllKeep P steps
    → P o
    → Kept P (apply_steps steps o)
unfolding apply_steps
apply_steps-Kept P [] o k h = h
apply_steps-Kept P ((value, f) ∷ steps) o k h =
    bind-Kept P P (on_value value f o) (apply_steps steps) (on_value-Kept P value f o h k.0)
      (λ o' h'. apply_steps-Kept P steps o' k.1 h')
