-- ===== src/Utils/Ends.antt =====
-- EndsWith against the texts that do end so.
use gitrpc.Prelude.{
  ℕ, zero, suc, ◌-◌, ◌≤◌, ◌==◌, ==_iff, ◌≡◌, ◌↔◌, refl, sym, ap, subst, ◌∙◌, Bool, true, false,
  ◌&&◌, List, [], ◌∷◌, ◌++◌, length, length-append, take, drop, take_all, drop-append, length-drop,
  leb, arith,
}
use gitrpc.Utils.{equal_text, ends_with}

equal_text_refl : (s : List ℕ) → equal_text s s ≡ true
unfolding equal_text
equal_text_refl [] = refl
equal_text_refl (c ∷ s) = rw ((==_iff c c).1 refl) (equal_text_refl s)

and_both : (a b : Bool) → (a && b) ≡ true → (a ≡ true) × (b ≡ true)
and_both true true e = (refl, refl)
and_both true false e = absurd (ground arith)
and_both false b e = absurd (ground arith)

equal_text-eq : (s t : List ℕ) → equal_text s t ≡ true → s ≡ t
unfolding equal_text
equal_text-eq [] [] e = refl
equal_text-eq [] (d ∷ t) e = absurd (ground arith)
equal_text-eq (c ∷ s) [] e = absurd (ground arith)
equal_text-eq (c ∷ s) (d ∷ t) e =
    let (first, rest) = and_both (c == d) (equal_text s t) e in
    subst (λ x. c ∷ s ≡ x ∷ t) ((==_iff c d).0 first) (ap (◌∷◌ c) (equal_text-eq s t rest))

take-drop : {A : Type 0} (n : ℕ) (xs : List A) → take n xs ++ drop n xs ≡ xs
take-drop zero xs = refl
take-drop (suc n) [] = refl
take-drop (suc n) (x ∷ xs) = ap (◌∷◌ x) (take-drop n xs)

-- The last n characters, taken up to their number.
last_part :
    (str : List ℕ) (n : ℕ)
    → n ≤ length str
    → take n (drop (length str - n) str) ≡ drop (length str - n) str
last_part str n small =
    take_all n (drop (length str - n) str) (omega (arith, length-drop (length str - n) str))

ends_with-start :
    (str suffix : List ℕ)
    → ends_with str suffix ≡ true
    → str ≡ take (length str - length suffix) str ++ suffix
unfolding ends_with
ends_with-start str suffix e =
    let (fits, same) = and_both (leb (length suffix) (length str)) _ e in
    let small : length suffix ≤ length str = ground arith in
    let end : drop (length str - length suffix) str ≡ suffix =
      sym (last_part str (length suffix) small) ∙ equal_text-eq _ suffix same in
    sym (take-drop (length str - length suffix) str)
    ∙ ap (λ x. take (length str - length suffix) str ++ x) end

ends_with-append : (start suffix : List ℕ) → ends_with (start ++ suffix) suffix ≡ true
unfolding ends_with
ends_with-append start suffix =
    let fits : leb (length suffix) (length (start ++ suffix)) ≡ true =
      ground (arith, length-append start suffix) in
    let end : drop (length (start ++ suffix) - length suffix) (start ++ suffix) ≡ suffix =
      drop-append _ start suffix (omega (arith, length-append start suffix)) in
    rw (fits, end, take_all (length suffix) suffix (omega arith)) (equal_text_refl suffix)

-- EndsWith says of two texts whether the first is some text followed by the second.
ends_with_iff :
    (str suffix : List ℕ)
    → (ends_with str suffix ≡ true) ↔ ((start : List ℕ) × (str ≡ start ++ suffix))
ends_with_iff str suffix = (
  λ e. (take (length str - length suffix) str, ends_with-start str suffix e),
  λ (start, e). subst (λ x. ends_with x suffix ≡ true) (sym e) (ends_with-append start suffix),
)
