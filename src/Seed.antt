-- ===== src/Seed.antt =====
-- db/seed.py: the two predefined suites, written by their slugs when the system is set up.
pub mod Slugs
pub mod Twice
use hilforge.Base.{
  ℕ, String, Bool, true, false, Option, none, some, List, [], ◌∷◌, ◌++◌, if◌then◌else◌, str_eq,
  is_some, put_by,
}
use hilforge.Domain.Json.{Json, Items, Fields, num, str, arr, obj, nil, cons, field, end}
use hilforge.Domain.Rows.{TestSuite, Db, find_suite, suite_id_of}
use hilforge.HostAgent.{host_suite_slug, host_suite_definition}

-- What `seed_default_suite` and `seed_host_suite` write: the key and the slug of a new row, and the
-- columns that are written into an old one, too.
pub record Seed : Type 0 where
  pub id : ℕ
  pub slug : String
  pub name : String
  pub description : String
  pub definition : Json

abbrev pub default_suite_definition : Json
default_suite_definition = obj (
    field "checks"
      (arr (cons (str "connectivity") (cons (str "self_test") (cons (str "timing") nil))))
      (field "version" (num 1) end))

abbrev pub default_suite : Seed
default_suite = record {
  id = 0x00000000000040008000000000000001;
  slug = "smoke";
  name = "Simulated Device Smoke Test";
  description = "Predefined connectivity, self-test, and timing checks for simulated devices.";
  definition = default_suite_definition;
}

abbrev pub host_suite : Seed
host_suite = record {
  id = 0x00000000000040008000000000000002;
  slug = host_suite_slug;
  name = "Windows Host Health Check";
  description = "Bounded, read-only inventory and integrity checks on a Windows host.";
  definition = host_suite_definition;
}

-- `select(TestSuite).where(TestSuite.slug == slug)`.
unfoldable pub find_suite_by_slug : String → List TestSuite → Option TestSuite
find_suite_by_slug slug [] = none
find_suite_by_slug slug (s ∷ ss) = if str_eq s.slug slug then some s else find_suite_by_slug slug ss

-- `suite.name = …`, `suite.description = …`, `suite.definition = …`.
unfoldable pub fill : Seed → TestSuite → TestSuite
fill seed suite = record suite {
  name = seed.name;
  description = seed.description;
  definition = seed.definition;
}

unfoldable pub new_suite : Seed → ℕ → TestSuite
new_suite seed now = record {
  id = seed.id;
  slug = seed.slug;
  name = seed.name;
  description = seed.description;
  definition = seed.definition;
  created_at = now;
}

-- One of the two functions. `none` is the flush of a key that another row has.
unfoldable pub seed_suite : Seed → ℕ → List TestSuite → Option (List TestSuite)
unfolding fill new_suite
seed_suite seed now suites = elim (find_suite_by_slug seed.slug suites) [
  | none ↦
      if is_some (find_suite seed.id suites) then none else some (suites ++ new_suite seed now ∷ [])
  | some suite ↦ some (put_by suite_id_of (fill seed suite) suites)
]

-- `main`: both, in one transaction.
unfoldable pub seed_all : ℕ → Db → Option Db
unfolding seed_suite
seed_all now db = elim (seed_suite default_suite now db.suites) [
  | none ↦ none
  | some suites ↦ elim (seed_suite host_suite now suites) [
    | none ↦ none
    | some suites' ↦ some (record db { suites = suites' })
  ]
]
