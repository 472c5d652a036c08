-- ===== src/Seed/Twice.antt =====
-- Seeding again changes nothing, and what was seeded is what the agents expect.
use hilforge.Base.{
  ℕ, ◌≡◌, ◌≢◌, refl, sym, ap, ◌∙◌, subst, inl, inr, true, false, String, none, some, List, [], ◌∷◌,
  ◌++◌, map, arith, eq_iff, is_some, put_by, All-find_by_self, Distinct, Distinct-append,
  keys-put_by, Bool-cases, Option-cases, some-injective,
}
use hilforge.Invariant.Linked.{not_found}
use hilforge.Domain.Rows.{TestSuite, Db, find_suite, suite_id_of}
use hilforge.Protocol.{AgentExecutionRequest}
use hilforge.HostAgent.{HostLibrary, is_predefined, host_suite_slug, host_suite_definition}
use hilforge.Seed.{
  Seed, default_suite, host_suite, find_suite_by_slug, fill, new_suite, seed_suite, seed_all,
}
use hilforge.Seed.Slugs.{
  All-find_suite_by_slug, find_suite_by_slug-slug, put_by-same, find_suite_by_slug-put_by_self,
  find_suite_by_slug-put_by_ne, find_suite_by_slug-append, find_suite_by_slug-append_self,
}

-- The row of a seed is there, as the seed has it.
abbrev pub IsSeeded : Seed → List TestSuite → Type 0
IsSeeded seed ss =
    (s : TestSuite) × (find_suite_by_slug seed.slug ss ≡ some s)
    × (s.name ≡ seed.name)
    × (s.description ≡ seed.description)
    × (s.definition ≡ seed.definition)

-- What one of the two functions makes of a table with different keys.
abbrev Seeds : Seed → List TestSuite → List TestSuite → Type 0
Seeds seed ss ss' =
    Distinct (map suite_id_of ss')
    × IsSeeded seed ss'
    × ((slug : String)
        → seed.slug ≢ slug
        → find_suite_by_slug slug ss' ≡ find_suite_by_slug slug ss)

module _ (seed : Seed) (now : ℕ) (ss : List TestSuite)
    (distinct : Distinct (map suite_id_of ss)) where
  itself : {s : TestSuite} → find_suite_by_slug seed.slug ss ≡ some s → find_suite s.id ss ≡ some s
  itself f =
      All-find_suite_by_slug (λ s. find_suite s.id ss ≡ some s) seed.slug ss
        (All-find_by_self suite_id_of ss distinct) f

  inserted :
      find_suite_by_slug seed.slug ss ≡ none
      → is_some (find_suite seed.id ss) ≡ false
      → Seeds seed ss (ss ++ new_suite seed now ∷ [])
  unfolding new_suite
  inserted absent fresh = (
    Distinct-append suite_id_of ss (new_suite seed now) (not_found suite_id_of seed.id ss fresh)
        distinct,
    (
      new_suite seed now,
      find_suite_by_slug-append_self seed.slug ss (new_suite seed now) refl absent,
      refl,
      refl,
      refl,
    ),
    λ slug n. find_suite_by_slug-append slug ss (new_suite seed now) n,
  )

  written :
      (s : TestSuite)
      → find_suite_by_slug seed.slug ss ≡ some s
      → Seeds seed ss (put_by suite_id_of (fill seed s) ss)
  unfolding fill
  written s f =
      let slug = find_suite_by_slug-slug seed.slug ss f in
      (
        rw (keys-put_by suite_id_of (fill seed s) ss) distinct,
        (
          fill seed s,
          find_suite_by_slug-put_by_self seed.slug s (fill seed s) ss refl slug slug (itself f) f,
          refl,
          refl,
          refl,
        ),
        λ other n.
            find_suite_by_slug-put_by_ne other s (fill seed s) ss refl refl (λ e. n (sym slug ∙ e))
              (itself f),
      )

  seed_suite-Seeds : {ss' : List TestSuite} → seed_suite seed now ss ≡ some ss' → Seeds seed ss ss'
  unfolding seed_suite
  seed_suite-Seeds {ss'} e = elim (Option-cases (find_suite_by_slug seed.slug ss)) [
    | inr (s, f) ↦
        subst (Seeds seed ss) (some-injective _ ss' (rw (f, seed_suite) at e)) (written s f)
    | inl absent ↦ elim (Bool-cases (is_some (find_suite seed.id ss))) [
      | inl taken ↦ absurd (ground (arith, absent, taken))
      | inr fresh ↦
          subst (Seeds seed ss) (some-injective _ ss' (rw (absent, fresh, seed_suite) at e))
            (inserted absent fresh)
    ]
  ]

  -- A seeded row is written as it stands.
  seed_suite_again : IsSeeded seed ss → seed_suite seed now ss ≡ some ss
  unfolding seed_suite fill
  seed_suite_again (s, f, n, d, j) =
      let same : fill seed s ≡ s =
        λ i. record s { name = sym n i; description = sym d i; definition = sym j i } in
      rw (f, seed_suite)
        (ap some
          (subst (λ x. put_by suite_id_of x ss ≡ ss) (sym same) (put_by-same s ss (itself f))))

host_is_not_default : host_suite.slug ≢ default_suite.slug
host_is_not_default e = cc (sym ((eq_iff host_suite.slug default_suite.slug).1 e))

-- The suites between the two functions, and after them.
module _ (now : ℕ) (db db' : Db) (distinct : Distinct (map suite_id_of db.suites))
    (seeded : seed_all now db ≡ some db') where
  both :
      (ss : List TestSuite) × (ss' : List TestSuite) × Seeds default_suite db.suites ss
      × Seeds host_suite ss ss'
      × (record db { suites = ss' } ≡ db')
  unfolding seed_all
  both = elim (Option-cases (seed_suite default_suite now db.suites)) [
    | inl raised ↦ absurd (ground (arith, raised))
    | inr (ss, e) ↦ elim (Option-cases (seed_suite host_suite now ss)) [
      | inl raised ↦ absurd (ground (arith, e, raised))
      | inr (ss', e') ↦
          let made : seed_all now db ≡ some (record db { suites = ss' }) =
            rw (e, seed_all) (rw e' refl) in
          let first = seed_suite-Seeds default_suite now db.suites distinct e in
          (
            ss,
            ss',
            first,
            seed_suite-Seeds host_suite now ss first.0 e',
            some-injective _ db' (sym made ∙ seeded),
          )
    ]
  ]

  settled :
      IsSeeded default_suite db'.suites
      × IsSeeded host_suite db'.suites
      × Distinct (map suite_id_of db'.suites)
  settled =
      let (ss, ss', first, second, e) = both in
      let (s, f, n, d, j) = first.1 in
      subst
        (λ d.
          IsSeeded default_suite d.suites
          × IsSeeded host_suite d.suites
          × Distinct (map suite_id_of d.suites))
        e ((s, second.2 default_suite.slug host_is_not_default ∙ f, n, d, j), second.1, second.0)

  others :
      (slug : String)
      → default_suite.slug ≢ slug
      → host_suite.slug ≢ slug
      → find_suite_by_slug slug db'.suites ≡ find_suite_by_slug slug db.suites
  others slug n m =
      let (ss, ss', first, second, e) = both in
      subst (λ d. find_suite_by_slug slug d.suites ≡ find_suite_by_slug slug db.suites) e
        (second.2 slug m ∙ first.2 slug n)

  again : (later : ℕ) → seed_all later db' ≡ some db'
  unfolding seed_all
  again later =
      let (d, h, distinct') = settled in
      rw (seed_suite_again default_suite later db'.suites distinct' d, seed_all)
        (rw (seed_suite_again host_suite later db'.suites distinct' h) refl)

  -- If seeding succeeds on a database whose suites have different keys, both predefined suites are
  -- there under their slugs, with their names, descriptions and definitions, a suite of another slug
  -- is as it was, and seeding again, at any time, succeeds and changes nothing.
  pub seed_all_lem :
      (slug : String) (later : ℕ)
      → default_suite.slug ≢ slug
      → host_suite.slug ≢ slug
      → IsSeeded default_suite db'.suites
        × IsSeeded host_suite db'.suites
        × (find_suite_by_slug slug db'.suites ≡ find_suite_by_slug slug db.suites)
        × (seed_all later db' ≡ some db')
  seed_all_lem slug later n m = (settled.0, settled.1, others slug n m, again later)

  -- If seeding succeeds on a database whose suites have different keys, then the host suite is found
  -- under its slug, and a request with the slug and the definition of that row is one that the host
  -- agent accepts, if the definition is the same document as itself.
  pub seed_all-is_predefined :
      (lib : HostLibrary) (request : AgentExecutionRequest) (suite : TestSuite)
      → find_suite_by_slug host_suite_slug db'.suites ≡ some suite
      → request.suite_slug ≡ suite.slug
      → request.suite_definition ≡ suite.definition
      → lib.same_document host_suite_definition host_suite_definition ≡ true
      → is_predefined lib request ≡ true
  unfolding is_predefined
  seed_all-is_predefined lib request suite f e g same =
      let (s, f', n, d, j) = settled.1 in
      let here : s ≡ suite = some-injective s suite (sym f' ∙ f) in
      let slug : request.suite_slug ≡ host_suite_slug =
        e ∙ find_suite_by_slug-slug host_suite_slug db'.suites f in
      let definition : request.suite_definition ≡ host_suite_definition =
        g ∙ sym (ap (λ (x : TestSuite). x.definition) here) ∙ j in
      rw (slug, definition) (rw same refl)
