-- ===== src/Mdns/Names/Distinct.antt =====
-- internal/mdns/mdns.go: the adverts that pass `checkAdverts`.
use overdub.Base.{ℕ, false, Option, none, some, List, [], ◌∷◌, length, ◌≡◌, ◌≤◌, refl, arith}
use overdub.Base.Text.{contains}
use overdub.Base.Strings.{lower}
use overdub.Mdns.{Advert, instance_for}
use overdub.Mdns.Names.{valid_name, check_each, check_texts, first_of, as_unbuildable}
use overdub.Mdns.Names.Labels.{IsName, valid_name_iff}

-- No service is one of those seen before, nor one that comes twice, in whatever case.
unfoldable pub IsNew : List (List ℕ) → List Advert → Type 0
IsNew seen [] = Unit
IsNew seen (a ∷ more) =
    (contains seen (lower a.service) ≡ false) × IsNew (lower a.service ∷ seen) more

-- Texts of at most 255 bytes.
unfoldable pub AreTexts : List (List ℕ) → Type 0
AreTexts [] = Unit
AreTexts (r ∷ rs) = (length r ≤ 255) × AreTexts rs

-- What the wire holds of each advert.
unfoldable pub AreFit : List ℕ → List Advert → Type 0
AreFit name [] = Unit
AreFit name (a ∷ more) =
    IsName a.service × IsName (instance_for name a.service) × AreTexts a.records × AreFit name more

first_of-none {ℓ} : {E : Type ℓ} (a b : Option E) → first_of a b ≡ none → (a ≡ none) × (b ≡ none)
unfolding first_of
first_of-none none b e = (refl, e)
first_of-none (some x) b e = ground arith

check_texts-AreTexts : (rs : List (List ℕ)) → check_texts rs ≡ none → AreTexts rs
unfolding AreTexts check_texts
check_texts-AreTexts [] e = tt
check_texts-AreTexts (r ∷ rs) e = (ground arith, check_texts-AreTexts rs (ground arith))

as_unbuildable-IsName : (name : List ℕ) → as_unbuildable (valid_name name) ≡ none → IsName name
unfolding as_unbuildable
as_unbuildable-IsName name e = (valid_name_iff name).0 (ground arith)

-- The adverts that pass have services that are all different, in whatever case, and the name of each
-- service, the name of its instance and its texts fit the wire format.
pub check_each-AreFit :
    (name : List ℕ) (seen : List (List ℕ)) (list : List Advert)
    → check_each name seen list ≡ none
    → IsNew seen list × AreFit name list
unfolding check_each IsNew AreFit
check_each-AreFit name seen [] e = (tt, tt)
check_each-AreFit name seen (a ∷ more) e =
    let (e1, f1) = first_of-none _ _ e in
    let (e2, f2) = first_of-none _ _ f1 in
    let (e3, f3) = first_of-none _ _ f2 in
    let (e4, f4) = first_of-none _ _ f3 in
    let (new, fit) = check_each-AreFit name (lower a.service ∷ seen) more f4 in
    (
      (ground arith, new),
      (
        as_unbuildable-IsName a.service e1,
        as_unbuildable-IsName (instance_for name a.service) e2,
        check_texts-AreTexts a.records e4,
        fit,
      ),
    )
