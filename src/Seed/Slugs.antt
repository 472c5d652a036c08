-- ===== src/Seed/Slugs.antt =====
-- How a suite is found by its slug, in the list of suites before and after a write.
use hilforge.Base.{
  ◌≡◌, ◌≢◌, refl, subst, inl, inr, String, none, some, List, [], ◌∷◌, ◌++◌, arith, str_eq, eq_iff,
  find_by, put_by, All, Bool-cases,
}
use hilforge.Domain.Rows.{TestSuite, find_suite, suite_id_of}
use hilforge.Seed.{find_suite_by_slug}

pub All-find_suite_by_slug {ℓ} :
    (P : TestSuite → Type ℓ) (slug : String) (ss : List TestSuite) {s : TestSuite}
    → All P ss
    → find_suite_by_slug slug ss ≡ some s
    → P s
unfolding find_suite_by_slug
All-find_suite_by_slug P slug [] h e = cc
All-find_suite_by_slug P slug (x ∷ ss) {s} h e = elim (Bool-cases (str_eq x.slug slug)) [
  | inl same ↦ let here : x ≡ s = ground (arith, same) in subst P here h.0
  | inr other ↦ All-find_suite_by_slug P slug ss {s = s} h.1 (ground (arith, other))
]

pub find_suite_by_slug-slug :
    (slug : String) (ss : List TestSuite) {s : TestSuite}
    → find_suite_by_slug slug ss ≡ some s
    → s.slug ≡ slug
unfolding find_suite_by_slug
find_suite_by_slug-slug slug [] e = cc
find_suite_by_slug-slug slug (x ∷ ss) {s} e =
    ground (arith, eq_iff x.slug slug, find_suite_by_slug-slug slug ss {s = s})

-- A row that is written as it stands changes nothing.
pub put_by-same :
    (x : TestSuite) (ss : List TestSuite)
    → find_suite x.id ss ≡ some x
    → put_by suite_id_of x ss ≡ ss
unfolding find_by put_by
put_by-same x [] f = refl
put_by-same x (s ∷ ss) f = ground (arith, put_by-same x ss)

-- A row is written: it is found under its slug.
pub find_suite_by_slug-put_by_self :
    (slug : String) (x x' : TestSuite) (ss : List TestSuite)
    → x'.id ≡ x.id
    → x'.slug ≡ slug
    → x.slug ≡ slug
    → find_suite x.id ss ≡ some x
    → find_suite_by_slug slug ss ≡ some x
    → find_suite_by_slug slug (put_by suite_id_of x' ss) ≡ some x'
unfolding find_by put_by find_suite_by_slug
find_suite_by_slug-put_by_self slug x x' [] i e g f h = cc
find_suite_by_slug-put_by_self slug x x' (s ∷ ss) i e g f h = ground (
  arith,
  eq_iff s.slug slug,
  eq_iff x'.slug slug,
  find_suite_by_slug-put_by_self slug x x' ss i e g,
)

-- The rows of other slugs stay.
pub find_suite_by_slug-put_by_ne :
    (slug : String) (x x' : TestSuite) (ss : List TestSuite)
    → x'.id ≡ x.id
    → x'.slug ≡ x.slug
    → x.slug ≢ slug
    → find_suite x.id ss ≡ some x
    → find_suite_by_slug slug (put_by suite_id_of x' ss) ≡ find_suite_by_slug slug ss
unfolding find_by put_by find_suite_by_slug
find_suite_by_slug-put_by_ne slug x x' [] i e n f = refl
find_suite_by_slug-put_by_ne slug x x' (s ∷ ss) i e n f = ground (
  arith,
  eq_iff s.slug slug,
  eq_iff x'.slug slug,
  find_suite_by_slug-put_by_ne slug x x' ss i e n,
)

pub find_suite_by_slug-append :
    (slug : String) (ss : List TestSuite) (x : TestSuite)
    → x.slug ≢ slug
    → find_suite_by_slug slug (ss ++ x ∷ []) ≡ find_suite_by_slug slug ss
unfolding find_suite_by_slug
find_suite_by_slug-append slug [] x n = ground (arith, eq_iff x.slug slug)
find_suite_by_slug-append slug (s ∷ ss) x n = ground (arith, find_suite_by_slug-append slug ss x n)

pub find_suite_by_slug-append_self :
    (slug : String) (ss : List TestSuite) (x : TestSuite)
    → x.slug ≡ slug
    → find_suite_by_slug slug ss ≡ none
    → find_suite_by_slug slug (ss ++ x ∷ []) ≡ some x
unfolding find_suite_by_slug
find_suite_by_slug-append_self slug [] x e f = ground (arith, eq_iff x.slug slug)
find_suite_by_slug-append_self slug (s ∷ ss) x e f =
    ground (arith, find_suite_by_slug-append_self slug ss x e)
