-- ===== src/Migrations/Undo.antt =====
-- The scripts undo each other: a database that was upgraded can be brought back to what it was.
use hilforge.Base.{
  ◌≡◌, refl, sym, ap, subst, ◌∙◌, Option, some, none, List, [], ◌∷◌, ◌++◌, some-injective, arith,
  Option-cases, inl, inr,
}
use hilforge.Migrations.{
  Operation, create_table, drop_table, create_index, drop_index, add_column, drop_column, Server,
  Drops, issue,
}
use hilforge.Migrations.Initial
use hilforge.Migrations.Source

-- The call that undoes one; what was dropped cannot be told from the call.
unfoldable reverted : Operation → Option Operation
reverted (create_table table) = some (drop_table table.name)
reverted (create_index index) = some (drop_index index.name index.table_name)
reverted (add_column table column) = some (drop_column table column.name)
reverted (drop_table name) = none
reverted (drop_index name table) = none
reverted (drop_column table name) = none

-- The script that undoes one: the calls that undo its calls, in the opposite order.
unfoldable reversal : List Operation → Option (List Operation)
reversal [] = some []
reversal (call ∷ calls) = elim (reversal calls) [
  | none ↦ none
  | some later ↦ elim (reverted call) [ none ↦ none | some back ↦ some (later ++ (back ∷ [])) ]
]

module _ (server : Server) where
  issue-++ :
      (first second : List Operation) (s t : server.Schema)
      → issue server first s ≡ some t
      → issue server (first ++ second) s ≡ issue server second t
  unfolding issue
  issue-++ [] second s t e = ap (issue server second) (some-injective _ _ e)
  issue-++ (call ∷ calls) second s t e = elim (Option-cases (server.applied call s)) [
    | inl raises ↦
        let no : issue server (call ∷ calls) s ≡ none = rw (raises, issue) refl in
        absurd (ground (arith, no, e))
    | inr (s', f) ↦
        let here : issue server (call ∷ calls) s ≡ issue server calls s' = rw (f, issue) refl in
        rw (f, issue) (issue-++ calls second s' t (sym here ∙ e))
  ]

  module _ (drops : Drops server) where
    reverted_lem :
        (call back : Operation) (s s' : server.Schema)
        → reverted call ≡ some back
        → server.applied call s ≡ some s'
        → server.applied back s' ≡ some s
    unfolding reverted
    reverted_lem (create_table table) back s s' r e =
        subst (λ b. server.applied b s' ≡ some s) (some-injective _ _ r)
          (drops.drops_table table s s' e)
    reverted_lem (create_index index) back s s' r e =
        subst (λ b. server.applied b s' ≡ some s) (some-injective _ _ r)
          (drops.drops_index index s s' e)
    reverted_lem (add_column table column) back s s' r e =
        subst (λ b. server.applied b s' ≡ some s) (some-injective _ _ r)
          (drops.drops_column table column s s' e)
    reverted_lem (drop_table name) back s s' r e = absurd (ground (arith, r))
    reverted_lem (drop_index name table) back s s' r e = absurd (ground (arith, r))
    reverted_lem (drop_column table name) back s s' r e = absurd (ground (arith, r))

    reversal_lem :
        (up down : List Operation) (s s' : server.Schema)
        → reversal up ≡ some down
        → issue server up s ≡ some s'
        → issue server down s' ≡ some s
    unfolding reversal issue
    reversal_lem [] down s s' r e =
        subst (λ d. issue server d s' ≡ some s) (some-injective _ _ r) (sym e)
    reversal_lem (call ∷ calls) down s s' r e = elim (Option-cases (reversal calls)) [
      | inl unknown ↦
          let no : reversal (call ∷ calls) ≡ none = rw (unknown, reversal) refl in
          absurd (ground (arith, no, r))
      | inr (later, f) ↦ elim (Option-cases (reverted call)) [
        | inl unknown ↦
            let no : reversal (call ∷ calls) ≡ none = rw (f, unknown, reversal) refl in
            absurd (ground (arith, no, r))
        | inr (back, g) ↦ elim (Option-cases (server.applied call s)) [
          | inl raises ↦
              let no : issue server (call ∷ calls) s ≡ none = rw (raises, issue) refl in
              absurd (ground (arith, no, e))
          | inr (t, h) ↦
              let made : reversal (call ∷ calls) ≡ some (later ++ (back ∷ [])) =
                rw (f, g, reversal) refl in
              let rest : issue server (call ∷ calls) s ≡ issue server calls t =
                rw (h, issue) refl in
              subst (λ d. issue server d s' ≡ some s) (some-injective _ _ (sym made ∙ r))
                (issue-++ later (back ∷ []) s' t (reversal_lem calls later t s' f (sym rest ∙ e))
                  ∙ rw (reverted_lem call back s t g h, issue) refl)
        ]
      ]
    ]

    -- On a server whose drops undo the creates of the same names, if both upgrades succeed, then the
    -- downgrade of the second leads back to the schema between the two, and the downgrade of the
    -- first from there to the schema before them.
    pub downgrade-upgrade :
        (s s' s'' : server.Schema)
        → issue server Initial.upgrade s ≡ some s'
        → issue server Source.upgrade s' ≡ some s''
        → (issue server Source.downgrade s'' ≡ some s')
          × (issue server Initial.downgrade s' ≡ some s)
    unfolding reversal reverted
    downgrade-upgrade s s' s'' e f = (
      reversal_lem Source.upgrade Source.downgrade s' s'' refl f,
      reversal_lem Initial.upgrade Initial.downgrade s s' refl e,
    )
