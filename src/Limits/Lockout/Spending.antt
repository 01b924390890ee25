-- ===== src/Limits/Lockout/Spending.antt =====
-- What one request takes from the bucket of one identifier.
use voidchats_note2ee.Common.{
  ℕ, ◌+◌, ◌*◌, ◌≤◌, ◌≡◌, refl, sym, ap, ◌∙◌, subst, Bool, true, false, ◌&&◌, ◌||◌, Option, none,
  some, List, [], ◌∷◌, ◌==◌, if◌then◌else◌, length, arith, Bool-cases, Option-cases, inl, inr,
}
use voidchats_note2ee.Limits.Bucket.{Numbers, Policy, Bucket, consume_token_bucket}
use voidchats_note2ee.Limits.Bucket.Potential.{
  IsTimedEntry, IsAccurate, available, token, consume-IsTimed, consume_spends,
}
use voidchats_note2ee.Limits.Lockout.{
  Scope, device, user, ip, subject, same_scope, Dimension, Request, Store, put_bucket, Passage,
  passed, dimension_id, admit,
}

same_scope_refl : (s : Scope) → same_scope s s ≡ true
same_scope_refl device = refl
same_scope_refl user = refl
same_scope_refl ip = refl
same_scope_refl subject = refl

same_scope_lem : (s t : Scope) → same_scope s t ≡ true → s ≡ t
same_scope_lem device device h = refl
same_scope_lem device user h = absurd (cc h)
same_scope_lem device ip h = absurd (cc h)
same_scope_lem device subject h = absurd (cc h)
same_scope_lem user device h = absurd (cc h)
same_scope_lem user user h = refl
same_scope_lem user ip h = absurd (cc h)
same_scope_lem user subject h = absurd (cc h)
same_scope_lem ip device h = absurd (cc h)
same_scope_lem ip user h = absurd (cc h)
same_scope_lem ip ip h = refl
same_scope_lem ip subject h = absurd (cc h)
same_scope_lem subject device h = absurd (cc h)
same_scope_lem subject user h = absurd (cc h)
same_scope_lem subject ip h = absurd (cc h)
same_scope_lem subject subject h = refl

-- A dimension of the scope is there, and each one has the limits.
abbrev pub has_scope : Scope → List Dimension → Bool
has_scope scope [] = false
has_scope scope (d ∷ dimensions) = same_scope scope d.scope || has_scope scope dimensions

abbrev pub HasLimits : Scope → Policy → List Dimension → Type 0
HasLimits scope p [] = Unit
HasLimits scope p (d ∷ dimensions) =
    (same_scope scope d.scope ≡ true → d.limits ≡ p) × HasLimits scope p dimensions

abbrev pub is_passed : Passage → Bool
is_passed passed = true
is_passed _ = false

abbrev pub is_for : Option ℕ → ℕ → Bool
is_for none id = false
is_for (some j) id = j == id

weigh :
    (a s r c : Bool) (w : ℕ)
    → (if a && (s || r) && c then w else 0)
      ≤ (if a && r && c then w else 0) + (if s && c then w else 0)
weigh false s r c w = omega arith
weigh true false r c w = ground arith
weigh true true r false w = ground arith
weigh true true false true w = omega arith
weigh true true true true w = omega arith

module _ (hash_key_part : Option ℕ → ℕ) (scope : Scope) (id : ℕ) where
  -- The request is counted under the identifier.
  abbrev pub concerns : Request → Bool
  concerns req = is_for (dimension_id hash_key_part req scope) id

module _ (numbers : Numbers) (slack : ℕ) (hash_key_part : Option ℕ → ℕ) (scope : Scope) (id : ℕ)
    (p : Policy) where
  -- What a request that passes has spent under the identifier.
  abbrev pub due : Request → List Dimension → Passage → ℕ
  due req dimensions passage =
      if is_passed passage && has_scope scope dimensions && concerns hash_key_part scope id req
      then token numbers p
      else 0

  pub record Spent (req : Request) (dimensions : List Dimension) (before : Store)
      (done : Store × Passage) : Type 0 where
    pub timed : IsTimedEntry p req.now (done.0 scope id)
    pub paid :
        available numbers p req.now (done.0 scope id) + due req dimensions done.1
        ≤ available numbers p req.now (before scope id) + length dimensions * slack

  put_bucket_same : (b : Bucket) (store : Store) → put_bucket scope id b store scope id ≡ some b
  put_bucket_same b store = rw (same_scope_refl scope) (ground arith)

  put_bucket_other :
      (s : Scope) (j : ℕ) (b : Bucket) (store : Store)
      → (same_scope scope s && j == id) ≡ false
      → put_bucket s j b store scope id ≡ store scope id
  put_bucket_other s j b store h = ground arith

  -- One bucket is visited.
  record Visited (req : Request) (hit : Bool) (allowed : Bool) (before after : Store) : Type 0 where
    pub timed : IsTimedEntry p req.now (after scope id)
    pub paid :
        available numbers p req.now (after scope id)
          + (if allowed then (if hit then token numbers p else 0) else 0)
        ≤ available numbers p req.now (before scope id) + slack

  visit_hit :
      IsAccurate numbers p slack
      → (req : Request) (store : Store) → IsTimedEntry p req.now (store scope id)
      → Visited req true
          (consume_token_bucket numbers p req.now (store scope id)).verdict.allowed
          store
          (put_bucket scope id
            (consume_token_bucket numbers p req.now (store scope id)).bucket
            store)
  visit_hit accurate req store timed =
      let now = consume_token_bucket numbers p req.now (store scope id) in
      let here = put_bucket_same now.bucket store in
      record {
        timed = rw here (consume-IsTimed numbers p req.now (store scope id) timed);
        paid = rw here (
            ground (arith, consume_spends numbers p slack req.now (store scope id) accurate timed));
      }

  visit :
      IsAccurate numbers p slack
      → (req : Request) (d : Dimension) (j : ℕ) (store : Store)
      → (same_scope scope d.scope ≡ true → d.limits ≡ p)
      → IsTimedEntry p req.now (store scope id)
      → Visited req
          (same_scope scope d.scope && j == id)
          (consume_token_bucket numbers d.limits req.now (store d.scope j)).verdict.allowed
          store
          (put_bucket d.scope j
            (consume_token_bucket numbers d.limits req.now (store d.scope j)).bucket
            store)
  visit accurate req d j store limits timed =
      elim (Bool-cases (same_scope scope d.scope && j == id)) [
        | inl hit ↦
            let at_scope : scope ≡ d.scope = same_scope_lem scope d.scope (ground arith) in
            let at_id : id ≡ j = ground arith in
            let at_limits : p ≡ d.limits = sym (limits (ground arith)) in
            rw (hit, ← at_scope, ← at_id, ← at_limits) (visit_hit accurate req store timed)
        | inr other ↦
            let b = (consume_token_bucket numbers d.limits req.now (store d.scope j)).bucket in
            let kept = put_bucket_other d.scope j b store other in
            rw other (record { timed = rw kept timed; paid = rw kept (ground arith) })
      ]

  concerned :
      (req : Request) (d : Dimension) (given : Option ℕ)
      → dimension_id hash_key_part req d.scope ≡ given
      → (same_scope scope d.scope && concerns hash_key_part scope id req)
        ≡ (same_scope scope d.scope && is_for given id)
  concerned req d given known = elim (Bool-cases (same_scope scope d.scope)) [
    | inl here ↦ rw here (
        ap (λ o. is_for o id)
          (ap (dimension_id hash_key_part req) (same_scope_lem scope d.scope here) ∙ known))
    | inr other ↦ rw other refl
  ]

  -- What the next dimensions ask.
  due_here :
      (req : Request) (d : Dimension) (dimensions : List Dimension) (given : Option ℕ)
      (passage : Passage)
      → dimension_id hash_key_part req d.scope ≡ given
      → due req (d ∷ dimensions) passage
        ≤ due req dimensions passage
          + (if same_scope scope d.scope && is_for given id then token numbers p else 0)
  due_here req d dimensions given passage known =
      subst
        (λ b.
          due req (d ∷ dimensions) passage
          ≤ due req dimensions passage + (if b then token numbers p else 0))
        (concerned req d given known)
        (weigh (is_passed passage) (same_scope scope d.scope) (has_scope scope dimensions)
          (concerns hash_key_part scope id req) (token numbers p))

  unasked : (b : Bool) (w : ℕ) → (if b && false then w else 0) ≡ 0
  unasked true w = refl
  unasked false w = refl

  pub admit-Spent :
      IsAccurate numbers p slack
      → (req : Request) (dimensions : List Dimension) (store : Store) → HasLimits scope p dimensions
      → IsTimedEntry p req.now (store scope id)
      → Spent req dimensions store (admit hash_key_part numbers req dimensions store)
  unfolding admit
  admit-Spent accurate req [] store limits timed = record { timed = timed; paid = omega arith }
  admit-Spent accurate req (d ∷ dimensions) store limits timed =
      elim (Option-cases (dimension_id hash_key_part req d.scope)) [
        | inl unknown ↦
            let rest = admit-Spent accurate req dimensions store limits.1 timed in
            let asked =
              due_here req d dimensions none (admit hash_key_part numbers req dimensions store).1
                unknown in
            let free = unasked (same_scope scope d.scope) (token numbers p) in
            rw (unknown, admit) (record { timed = rest.timed; paid = omega (arith, rest.paid) })
        | inr (j, known) ↦ elim (Bool-cases (req.reachable (length dimensions))) [
          | inr down ↦ rw (known, admit, down) (record { timed = timed; paid = ground arith })
          | inl up ↦
              let done = consume_token_bucket numbers d.limits req.now (store d.scope j) in
              let written = put_bucket d.scope j done.bucket store in
              let here = visit accurate req d j store limits.0 timed in
              elim (Bool-cases done.verdict.allowed) [
                | inr denied ↦
                    rw (known, admit, up, denied)
                      (record { timed = here.timed; paid = ground (arith, here.paid) })
                | inl granted ↦
                    let rest = admit-Spent accurate req dimensions written limits.1 here.timed in
                    let asked =
                      due_here req d dimensions (some j)
                        (admit hash_key_part numbers req dimensions written).1 known in
                    let first = rw granted at here.paid in
                    rw (known, admit, up, granted)
                      (record { timed = rest.timed; paid = omega arith })
              ]
        ]
      ]
