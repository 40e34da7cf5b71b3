-- ===== src/Logging/Tag.antt =====
-- The part of a tag behind its last slash.
use gitrpc.Prelude.{
  ℕ, ◌==◌, ==_iff, ◌≡◌, ◌⊎◌, inl, inr, refl, sym, ap, subst, Bool, true, false, Option, none, some,
  [], ◌∷◌, ◌++◌, drop, if◌then◌else◌, arith,
}
use gitrpc.Utils.Split.{IsFree}
use gitrpc.Logging.{Text, strrchr, final_tag}

-- What strrchr found: the last of these characters, and what comes after it.
abbrev IsLast : ℕ → Text → Option Text → Type 0
IsLast c s none = IsFree c s
IsLast c s (some final) =
    (start rest : Text) × (s ≡ start ++ c ∷ rest) × (final ≡ c ∷ rest) × IsFree c rest

IsLast-here :
    (c x : ℕ) (s : Text) (test : Bool)
    → (x == c) ≡ test
    → IsFree c s
    → IsLast c (x ∷ s) (if test then some (x ∷ s) else none)
IsLast-here c x s true e free =
    let same : x ≡ c = (==_iff x c).0 e in ([], s, ap (λ y. y ∷ s) same, ap (λ y. y ∷ s) same, free)
IsLast-here c x s false e free = (ground arith, free)

IsLast-later :
    (c x : ℕ) (s : Text) (found : Option Text)
    → IsLast c s found
    → IsLast c
        (x ∷ s)
        (elim found [ some final ↦ some final | none ↦ if x == c then some (x ∷ s) else none ])
IsLast-later c x s none free = IsLast-here c x s (x == c) refl free
IsLast-later c x s (some final) (start, rest, e, f, free) = (x ∷ start, rest, ap (◌∷◌ x) e, f, free)

strrchr-IsLast : (c : ℕ) (s : Text) → IsLast c s (strrchr c s)
unfolding strrchr
strrchr-IsLast c [] = tt
strrchr-IsLast c (x ∷ s) = IsLast-later c x s (strrchr c s) (strrchr-IsLast c s)

abbrev pub IsShown : Text → Text → Type 0
IsShown tag part = IsFree 47 part × ((part ≡ tag) ⊎ ((start : Text) × (tag ≡ start ++ 47 ∷ part)))

shown :
    (tag : Text) (found : Option Text)
    → IsLast 47 tag found
    → IsShown tag (elim found [ none ↦ tag | some final_slash ↦ drop 1 final_slash ])
shown tag none free = (free, inl refl)
shown tag (some final) (start, rest, e, f, free) =
    subst (IsShown tag) (sym (ap (drop 1) f)) (free, inr (start, e))

-- Log shows of a tag what comes behind its last slash, and all of it if it has none.
final_tag-IsFree : (tag : Text) → IsShown tag (final_tag tag)
unfolding final_tag
final_tag-IsFree tag = shown tag (strrchr 47 tag) (strrchr-IsLast 47 tag)
