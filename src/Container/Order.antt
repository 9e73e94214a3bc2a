-- ===== src/Container/Order.antt =====
-- `operator<` as the ordered containers use it: a strict weak ordering, and that of `std::string`.
use sylar_server_study.Base.{
  Text, ltb, ◌==◌, Bool, true, false, not, ◌&&◌, ◌||◌, [], ◌∷◌, ◌≡◌, refl, ◌⊎◌, inl, inr, arith,
}

pub record IsWeakOrder {T : Type 0} (less : T → T → Bool) : Type 0 where
  pub irrefl : (x : T) → less x x ≡ false
  pub trans : (x y z : T) → less x y ≡ true → less y z ≡ true → less x z ≡ true
  pub cotrans : (x y z : T) → less x z ≡ true → (less x y ≡ true) ⊎ (less y z ≡ true)

-- Neither is less than the other: what a set takes for the same.
abbrev pub equivalent : {T : Type 0} → (T → T → Bool) → T → T → Bool
equivalent less x y = not (less x y) && not (less y x)

-- Bytes are compared as unsigned characters.
unfoldable pub text_less : Text → Text → Bool
text_less [] [] = false
text_less [] (y ∷ ys) = true
text_less (x ∷ xs) [] = false
text_less (x ∷ xs) (y ∷ ys) = ltb x y || (x == y && text_less xs ys)

text_less_irrefl : (a : Text) → text_less a a ≡ false
unfolding text_less
text_less_irrefl [] = refl
text_less_irrefl (x ∷ xs) = ground (arith, text_less_irrefl xs)

text_less_trans :
    (a b c : Text) → text_less a b ≡ true → text_less b c ≡ true → text_less a c ≡ true
unfolding text_less
text_less_trans a [] [] h k = absurd (cc)
text_less_trans [] b (z ∷ c) h k = refl
text_less_trans (x ∷ a) [] c h k = absurd (cc)
text_less_trans [] (y ∷ b) [] h k = absurd (cc)
text_less_trans (x ∷ a) (y ∷ b) [] h k = absurd (cc)
text_less_trans (x ∷ a) (y ∷ b) (z ∷ c) h k = ground (arith, text_less_trans a b c)

text_less_cotrans :
    (a b c : Text) → text_less a c ≡ true → (text_less a b ≡ true) ⊎ (text_less b c ≡ true)
unfolding text_less
text_less_cotrans [] b [] h = absurd (cc)
text_less_cotrans (x ∷ a) b [] h = absurd (cc)
text_less_cotrans [] [] (z ∷ c) h = inr refl
text_less_cotrans [] (y ∷ b) (z ∷ c) h = inl refl
text_less_cotrans (x ∷ a) [] (z ∷ c) h = inr refl
text_less_cotrans (x ∷ a) (y ∷ b) (z ∷ c) h = ground (arith, text_less_cotrans a b c)

-- Texts that are equivalent are equal.
pub text_less_total : (a b : Text) → text_less a b ≡ false → text_less b a ≡ false → a ≡ b
unfolding text_less
text_less_total [] [] h k = refl
text_less_total [] (y ∷ b) h k = absurd (cc)
text_less_total (x ∷ a) [] h k = absurd (cc)
text_less_total (x ∷ a) (y ∷ b) h k = ground (arith, text_less_total a b)

pub text_less-IsWeakOrder : IsWeakOrder text_less
text_less-IsWeakOrder = record {
  irrefl = text_less_irrefl;
  trans = text_less_trans;
  cotrans = text_less_cotrans;
}

-- Objects compared by a key.
abbrev pub less_by : {T : Type 0} → (T → Text) → T → T → Bool
less_by key x y = text_less (key x) (key y)

pub less_by-IsWeakOrder : {T : Type 0} (key : T → Text) → IsWeakOrder (less_by key)
less_by-IsWeakOrder key = record {
  irrefl = λ x. text_less_irrefl (key x);
  trans = λ x y z. text_less_trans (key x) (key y) (key z);
  cotrans = λ x y z. text_less_cotrans (key x) (key y) (key z);
}
