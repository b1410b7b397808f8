-- ===== src/Hooks/Positions.antt =====
-- Where the elements of a list stand that follow others.
use go_server_sdk.Prelude.{
  ℕ, suc, ◌+◌, ltb, lt→ltb, true, Option, none, some, map_option, List, [], ◌∷◌, map, arith, ◌≡◌,
  refl, sym, ap, ◌∙◌,
}
use go_server_sdk.Hooks.{nth, put, count}

-- The reverse of a list, before another.
abbrev pub rev_onto {ℓ} : {A : Type ℓ} → List A → List A → List A
rev_onto [] ys = ys
rev_onto (x ∷ xs) ys = rev_onto xs (x ∷ ys)

-- `count xs + k`
abbrev shift {ℓ} : {A : Type ℓ} → List A → ℕ → ℕ
shift [] k = k
shift (x ∷ xs) k = shift xs (suc k)

count-shift {ℓ} : {A : Type ℓ} (xs : List A) (k : ℕ) → shift xs k ≡ count xs + k
count-shift [] k = omega arith
count-shift (x ∷ xs) k = ground (arith, count-shift xs (suc k))

nth-shift {ℓ} : {A : Type ℓ} (k : ℕ) (xs ys : List A) → nth (shift xs k) (rev_onto xs ys) ≡ nth k ys
unfolding nth
nth-shift k [] ys = refl
nth-shift k (x ∷ xs) ys = nth-shift (suc k) xs (x ∷ ys)

map_option_same {ℓ} : {A : Type ℓ} (o : Option A) → o ≡ map_option (λ a. a) o
map_option_same none = refl
map_option_same (some a) = refl

put-shift {ℓ} :
    {A : Type ℓ} (k : ℕ) (z : A) (xs ys : List A)
    → put (shift xs k) z (rev_onto xs ys) ≡ map_option (rev_onto xs) (put k z ys)
unfolding put
put-shift k z [] ys = map_option_same (put k z ys)
put-shift {A = A} k z (x ∷ xs) ys = put-shift (suc k) z xs (x ∷ ys) ∙ fuse (put k z ys)
  where
    fuse :
        (o : Option (List A))
        → map_option (rev_onto xs) (map_option (λ zs. x ∷ zs) o) ≡ map_option (rev_onto (x ∷ xs)) o
    fuse none = refl
    fuse (some a) = refl

shift-zero {ℓ} : {A : Type ℓ} (xs : List A) → shift xs 0 ≡ count xs
shift-zero xs = ground (arith, count-shift xs 0)

nth-count {ℓ} :
    {A : Type ℓ} (xs : List A) (y : A) (ys : List A)
    → nth (count xs) (rev_onto xs (y ∷ ys)) ≡ some y
unfolding nth
nth-count xs y ys =
    ap (λ n. nth n (rev_onto xs (y ∷ ys))) (sym (shift-zero xs)) ∙ nth-shift 0 xs (y ∷ ys)

put-count {ℓ} :
    {A : Type ℓ} (z : A) (xs : List A) (y : A) (ys : List A)
    → put (count xs) z (rev_onto xs (y ∷ ys)) ≡ some (rev_onto xs (z ∷ ys))
unfolding put
put-count z xs y ys =
    ap (λ n. put n z (rev_onto xs (y ∷ ys))) (sym (shift-zero xs)) ∙ put-shift 0 z xs (y ∷ ys)

pub count-rev_onto {ℓ} :
    {A : Type ℓ} (xs ys : List A) → count (rev_onto xs ys) ≡ count xs + count ys
count-rev_onto [] ys = omega arith
count-rev_onto (x ∷ xs) ys = ground (arith, count-rev_onto xs (x ∷ ys))

pub count-map : {A B : Type 0} (f : A → B) (xs : List A) → count (map f xs) ≡ count xs
count-map f [] = refl
count-map f (x ∷ xs) = ap suc (count-map f xs)

pub nth_at :
    {A : Type 0} (n : ℕ) (xs : List A) (y : A) (ys : List A)
    → count xs ≡ n
    → nth n (rev_onto xs (y ∷ ys)) ≡ some y
nth_at n xs y ys e = ap (λ k. nth k (rev_onto xs (y ∷ ys))) (sym e) ∙ nth-count xs y ys

pub put_at :
    {A : Type 0} (n : ℕ) (z : A) (xs : List A) (y : A) (ys : List A)
    → count xs ≡ n
    → put n z (rev_onto xs (y ∷ ys)) ≡ some (rev_onto xs (z ∷ ys))
put_at n z xs y ys e = ap (λ k. put k z (rev_onto xs (y ∷ ys))) (sym e) ∙ put-count z xs y ys

pub bound_at :
    {A : Type 0} (n : ℕ) (xs : List A) (y : A) (ys : List A)
    → count xs ≡ n
    → ltb n (count (rev_onto xs (y ∷ ys))) ≡ true
bound_at n xs y ys e = lt→ltb _ _ (ground (arith, e, count-rev_onto xs (y ∷ ys)))

pub map-map :
    {A B C : Type 0} (f : B → C) (g : A → B) (xs : List A)
    → map f (map g xs) ≡ map (λ x. f (g x)) xs
map-map f g [] = refl
map-map f g (x ∷ xs) = ap (λ ys. f (g x) ∷ ys) (map-map f g xs)

pub map-rev_onto :
    {A B : Type 0} (f : A → B) (xs ys : List A)
    → map f (rev_onto xs ys) ≡ rev_onto (map f xs) (map f ys)
map-rev_onto f [] ys = refl
map-rev_onto f (x ∷ xs) ys = map-rev_onto f xs (x ∷ ys)

rev-rev_onto : {A : Type 0} (xs ys : List A) → rev_onto (rev_onto xs ys) [] ≡ rev_onto ys xs
rev-rev_onto [] ys = refl
rev-rev_onto (x ∷ xs) ys = rev-rev_onto xs (x ∷ ys)

pub rev_rev : {A : Type 0} (xs : List A) → rev_onto (rev_onto xs []) [] ≡ xs
rev_rev xs = rev-rev_onto xs []

pub map-rev_rev :
    {A B : Type 0} (f : A → B) (xs : List A) → map f xs ≡ rev_onto (map f (rev_onto xs [])) []
map-rev_rev f xs = ap (map f) (sym (rev_rev xs)) ∙ map-rev_onto f (rev_onto xs []) []
