-- ===== src/Common/Sublists.antt =====
-- Lists with some of the elements of another, in its order.
use mathlib.Core.Path.{◌≡◌, refl, subst}
use mathlib.Core.List.{List, [], ◌∷◌, ◌++◌, map}

pub data Sublist {ℓ} {A : Type ℓ} : List A → List A → Type ℓ where
  done : Sublist [] []
  keep : (x : A) (xs ys : List A) → Sublist xs ys → Sublist (x ∷ xs) (x ∷ ys)
  leave : (y : A) (xs ys : List A) → Sublist xs ys → Sublist xs (y ∷ ys)

module _ {ℓ} {A : Type ℓ} where
  pub empty-Sublist : (ys : List A) → Sublist [] ys
  empty-Sublist [] = done
  empty-Sublist (y ∷ ys) = leave y [] ys (empty-Sublist ys)

  pub keep_last : (z : A) {xs ys : List A} → Sublist xs ys → Sublist (xs ++ z ∷ []) (ys ++ z ∷ [])
  keep_last z done = keep z [] [] done
  keep_last z (keep x xs ys s) = keep x (xs ++ z ∷ []) (ys ++ z ∷ []) (keep_last z s)
  keep_last z (leave y xs ys s) = leave y (xs ++ z ∷ []) (ys ++ z ∷ []) (keep_last z s)

  pub Sublist-append : (zs : List A) {xs ys : List A} → Sublist xs ys → Sublist xs (ys ++ zs)
  Sublist-append zs done = empty-Sublist zs
  Sublist-append zs (keep x xs ys s) = keep x xs (ys ++ zs) (Sublist-append zs s)
  Sublist-append zs (leave y xs ys s) = leave y xs (ys ++ zs) (Sublist-append zs s)

  front_of : (xs us zs ys : List A) → zs ≡ xs ++ us → Sublist zs ys → Sublist xs ys
  front_of [] us zs ys e s = empty-Sublist ys
  front_of (x ∷ xs) us zs ys e done = absurd (cc e)
  front_of (x ∷ xs) us _ _ e (keep z zs ys s) =
      let same : z ≡ x = cc e in
      let rest : zs ≡ xs ++ us = cc e in
      subst (λ w. Sublist (w ∷ xs) (z ∷ ys)) same (keep z xs ys (front_of xs us zs ys rest s))
  front_of (x ∷ xs) us _ _ e (leave y zs ys s) =
      leave y (x ∷ xs) ys (front_of (x ∷ xs) us zs ys e s)

  -- The front part of a sublist.
  pub front-Sublist : (xs us ys : List A) → Sublist (xs ++ us) ys → Sublist xs ys
  front-Sublist xs us ys s = front_of xs us (xs ++ us) ys refl s

pub map-Sublist {ℓ κ} :
    {A : Type ℓ} {B : Type κ} (f : A → B) {xs ys : List A}
    → Sublist xs ys
    → Sublist (map f xs) (map f ys)
map-Sublist f done = done
map-Sublist f (keep x xs ys s) = keep (f x) (map f xs) (map f ys) (map-Sublist f s)
map-Sublist f (leave y xs ys s) = leave (f y) (map f xs) (map f ys) (map-Sublist f s)
