-- ===== src/Entity/Validate/Casts.antt =====
-- What becomes of the values of an entity that is valid.
use etre.Base.{
  ℕ, ◌+◌, ◌*◌, ◌^◌, ◌%◌, ◌≤◌, ◌<◌, ◌≡◌, refl, ap, true, false, List, [], ◌∷◌, map, arith,
}
use etre.Etre.{Value, nil, string, bool, int, int32, int64, float64, object_id, other, Entity}
use etre.Entity.Validate.{to_int}

-- n is the integer part of the float of the magnitude, which counts in units of 2 ^ -1074.
abbrev pub IsIntegerPart : ℕ → ℕ → Type 0
IsIntegerPart magnitude n = (n * 2 ^ 1074 ≤ magnitude) × (magnitude < (n + 1) * 2 ^ 1074)

-- What becomes of a value: a float whose integer part is in the range of int64 is replaced by this
-- int, with the sign of the float, and any other value stays.
abbrev pub IsCast : Value → Value → Type 0
IsCast (float64 false magnitude) v = (n : ℕ) → IsIntegerPart magnitude n → n < 2 ^ 63 → v ≡ int n
IsCast (float64 true magnitude) v =
    (n : ℕ)
    → IsIntegerPart magnitude n
    → n ≤ 2 ^ 63
    → (w : ℕ) × (v ≡ int w) × (w < 2 ^ 64) × ((w + n) % 2 ^ 64 ≡ 0)
IsCast old v = v ≡ old

-- The same labels in the same order, with what becomes of their values.
abbrev pub IsCastOf : Entity → Entity → Type 0
IsCastOf [] [] = Unit
IsCastOf [] (q ∷ f) = ⊥
IsCastOf (p ∷ e) [] = ⊥
IsCastOf (p ∷ e) (q ∷ f) = ((q.0 ≡ p.0) × IsCast p.1 q.1) × IsCastOf e f

abbrev pub AreCastsOf : List Entity → List Entity → Type 0
AreCastsOf [] [] = Unit
AreCastsOf [] (f ∷ fs) = ⊥
AreCastsOf (e ∷ es) [] = ⊥
AreCastsOf (e ∷ es) (f ∷ fs) = IsCastOf e f × AreCastsOf es fs

abbrev pub cast : Value → Value
cast (float64 s m) = int (to_int s m)
cast v = v

abbrev pub cast_all : Entity → Entity
cast_all = map (λ p. (p.0, cast p.1))

cast-IsCast : (v : Value) → IsCast v (cast v)
unfolding to_int
cast-IsCast (float64 false m) = λ n part small. ap int (ground arith)
cast-IsCast (float64 true m) = λ n part small. (to_int true m, refl, ground arith, ground arith)
cast-IsCast nil = refl
cast-IsCast (string s) = refl
cast-IsCast (bool b) = refl
cast-IsCast (int n) = refl
cast-IsCast (int32 n) = refl
cast-IsCast (int64 n) = refl
cast-IsCast (object_id o) = refl
cast-IsCast (other t) = refl

cast_all-IsCastOf : (e : Entity) → IsCastOf e (cast_all e)
cast_all-IsCastOf [] = tt
cast_all-IsCastOf (p ∷ e) = ((refl, cast-IsCast p.1), cast_all-IsCastOf e)

pub casts-AreCastsOf : (es : List Entity) → AreCastsOf es (map cast_all es)
casts-AreCastsOf [] = tt
casts-AreCastsOf (e ∷ es) = (cast_all-IsCastOf e, casts-AreCastsOf es)
