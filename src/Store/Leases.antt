-- ===== src/Store/Leases.antt =====
-- What app/repositories/stage_claims.py promises the services: an attempt at a stage of a job has
-- one owner until the lease ends or is given back. Another attempt is another claim.
use stream_lite.Base.{
  false, ◌≤◌, ltb, ==_refl, subst, Bool, ◌≤◌, refl, ◌&&◌, ℕ, ◌≡◌, ap, true, Option, none, some, [],
  ◌∷◌, arith, ◌==◌, Bool-cases, ==_iff, inl, inr, some-injective,
}
use stream_lite.Base.Table.{Table, get, put, get-put_self}
use stream_lite.Base.Exec.{ok, err, already_claimed, ok-injective}
use stream_lite.Store.Jobs.{or_old}
use stream_lite.Store.Model.{Stage, Service, Claim, ClaimStatus, Db, generate_uuid}
use stream_lite.Store.Claims.{
  is_for, find_claim, is_held, is_active, claim_row, claim_stage, release_stage, expired_row,
  expire_rows, expire_claims, new_claim, recovered,
}

module _ (j : ℕ) (s : Stage) (n : ℕ) where
  found_key :
      (i k : ℕ) (b row : Claim) → ◌≡◌ {A = Option (ℕ × Claim)} (some (i, b)) (some (k, row)) → i ≡ k
  found_key i k b row e = ap (λ (p : ℕ × Claim). p.0) (some-injective (i, b) (k, row) e)

  -- A claim of the stage, written under a new key or under that of the claim before it, is the one
  -- that is found.
  find_claim-put_new :
      (k : ℕ) (row : Claim) (t : Table Claim)
      → is_for j s n row ≡ true
      → find_claim j s n t ≡ none
      → find_claim j s n (put k row t) ≡ some (k, row)
  unfolding find_claim put
  find_claim-put_new k row [] h e = rw h
  find_claim-put_new k row ((i, b) ∷ t) h e = elim (Bool-cases (i == k)) [
    | inl same ↦ rw (same, h)
    | inr other ↦ elim (Bool-cases (is_for j s n b)) [
      | inl mine ↦ ground arith
      | inr not_mine ↦ rw (other, not_mine, find_claim-put_new k row t h (rw not_mine at e))
    ]
  ]

  find_claim-put_old :
      (k : ℕ) (row old : Claim) (t : Table Claim)
      → is_for j s n row ≡ true
      → find_claim j s n t ≡ some (k, old)
      → find_claim j s n (put k row t) ≡ some (k, row)
  unfolding find_claim put
  find_claim-put_old k row old [] h e = cc
  find_claim-put_old k row old ((i, b) ∷ t) h e = elim (Bool-cases (i == k)) [
    | inl same ↦ rw (same, h)
    | inr other ↦ elim (Bool-cases (is_for j s n b)) [
      | inl mine ↦ ground (arith, ==_iff i k, found_key i k b old (rw mine at e))
      | inr not_mine ↦ rw (other, not_mine, find_claim-put_old k row old t h (rw not_mine at e))
    ]
  ]

  -- The claim of the stage, and what it says.
  record Owns (id : ℕ) (active : Bool) (lease : ℕ) (db : Db) : Type 0 where
    pub row : Claim
    pub found : find_claim j s n db.claims ≡ some (id, row)
    pub stored : get id db.claims ≡ some row
    pub mine : is_for j s n row ≡ true
    pub status : is_active row.claim_status ≡ active
    pub until : row.lease_expires_at ≡ lease

  find_claim-is_for :
      (t : Table Claim) (k : ℕ) (row : Claim)
      → find_claim j s n t ≡ some (k, row)
      → is_for j s n row ≡ true
  unfolding find_claim
  find_claim-is_for [] k row e = cc
  find_claim-is_for ((i, b) ∷ t) k row e = elim (Bool-cases (is_for j s n b)) [
    | inl mine ↦
        ground (arith, ap (λ (p : ℕ × Claim). p.1) (some-injective (i, b) (k, row) (rw mine at e)))
    | inr not_mine ↦ find_claim-is_for t k row (rw not_mine at e)
  ]

  claim_row-Owns :
      (owner : Service) (lease : ℕ) (c : Option ℕ) (o : Option (ℕ × Claim)) (db : Db) (id : ℕ)
      → find_claim j s n db.claims ≡ o
      → (claim_row j s n owner lease c o db).0 ≡ ok id
      → Owns id true lease (claim_row j s n owner lease c o db).1
  unfolding generate_uuid
  claim_row-Owns owner lease c none db id e h =
      subst (λ k. Owns k true lease (claim_row j s n owner lease c none db).1)
        (ok-injective db.next_uuid id h)
        (record {
          row = new_claim j s n owner lease c db.now;
          found =
              find_claim-put_new db.next_uuid (new_claim j s n owner lease c db.now) db.claims mine
                e;
          stored = get-put_self db.next_uuid (new_claim j s n owner lease c db.now) db.claims;
          mine = mine;
          status = refl;
          until = refl;
        })
    where
      mine : is_for j s n (new_claim j s n owner lease c db.now) ≡ true
      mine = simp ==_refl
  claim_row-Owns owner lease c (some (k, old)) db id e h = elim (Bool-cases (is_held db.now old)) [
    | inl held ↦ cc (rw held at h)
    | inr free ↦ rw free (
        subst (λ i. Owns i true lease (record db { claims = put k new db.claims }))
          (ok-injective k id (rw free at h))
          (record {
            row = new;
            found = find_claim-put_old k new old db.claims mine e;
            stored = get-put_self k new db.claims;
            mine = mine;
            status = refl;
            until = refl;
          }))
  ]
    where
      new : Claim
      new = recovered owner lease c db.now old

      mine : is_for j s n new ≡ true
      mine = find_claim-is_for db.claims k old e

  -- A claim of a stage that is owned, at the time `t`.
  claim_stage-owned :
      (id : ℕ) (active : Bool) (lease : ℕ) (owner : Service) (lease' t : ℕ) (c : Option ℕ) (db : Db)
      → Owns id active lease db
      → let result = claim_stage j s n owner lease' c (record db { now = t }) in
        (active && ltb t lease ≡ true → result ≡ (err already_claimed, record db { now = t }))
        × (active && ltb t lease ≡ false → result.0 ≡ ok id)
  unfolding claim_stage
  claim_stage-owned id active lease owner lease' t c db o =
      rw o.found ((λ held. rw (o.status, o.until, held)), (λ free. rw (o.status, o.until, free)))

  -- One attempt at a stage of a job has one owner at a time: once a service holds the claim to that
  -- attempt, a further claim to the same attempt is refused and writes nothing at any time `t` before
  -- the end of the lease, and takes over the same claim from then on. Claims to other attempts at the
  -- stage are not covered.
  pub claim_stage-exclusive :
      (owner next_owner : Service) (lease next_lease t id : ℕ) (c d : Option ℕ) (db : Db)
      → (claim_stage j s n owner lease c db).0 ≡ ok id
      → let later = record ((claim_stage j s n owner lease c db).1) { now = t } in
        let second = claim_stage j s n next_owner next_lease d later in
        (ltb t lease ≡ true → second ≡ (err already_claimed, later))
        × (ltb t lease ≡ false → second.0 ≡ ok id)
  unfolding claim_stage
  claim_stage-exclusive owner next_owner lease next_lease t id c d db h =
      claim_stage-owned id true lease next_owner next_lease t d _
        (claim_row-Owns owner lease c (find_claim j s n db.claims) db id refl h)

  -- A claim that its owner gives back is free at once: a further claim to the same attempt at the
  -- stage takes it over at any time.
  pub release_stage-frees :
      (owner next_owner : Service) (lease next_lease t id : ℕ) (c d at : Option ℕ) (db : Db)
      → (claim_stage j s n owner lease c db).0 ≡ ok id
      → let given_back = (release_stage id at (claim_stage j s n owner lease c db).1).1 in
        (claim_stage j s n next_owner next_lease d (record given_back { now = t })).0 ≡ ok id
  unfolding claim_stage release_stage
  release_stage-frees owner next_owner lease next_lease t id c d at db h =
      (claim_stage-owned id false lease next_owner next_lease t d _
          (released _ (claim_row-Owns owner lease c (find_claim j s n db.claims) db id refl h))).1
        refl
    where
      back : (db : Db) → Owns id true lease db → Claim
      back db o = record (o.row) {
        claim_status = ClaimStatus.released;
        released_at = some (or_old at db.now);
        updated_at = db.now;
      }

      released : (db : Db) → Owns id true lease db → Owns id false lease (release_stage id at db).1
      released db o = rw o.stored (record {
        row = back db o;
        found = find_claim-put_old id (back db o) o.row db.claims o.mine o.found;
        stored = get-put_self id (back db o) db.claims;
        mine = o.mine;
        status = refl;
        until = o.until;
      })

  abbrev expired_found : ℕ → Option (ℕ × Claim) → Option (ℕ × Claim)
  expired_found boundary none = none
  expired_found boundary (some (id, row)) = some (id, expired_row boundary row)

  find_claim-expired :
      (boundary : ℕ) (t : Table Claim)
      → find_claim j s n (expire_rows boundary t) ≡ expired_found boundary (find_claim j s n t)
  unfolding find_claim expire_rows
  find_claim-expired boundary [] = refl
  find_claim-expired boundary ((i, b) ∷ t) = ground (arith, find_claim-expired boundary t)

  -- Expiring the claims whose lease ended before `boundary` changes nothing for a service that asks
  -- for a stage at a time `t` from then on: it gets the claim, or is refused, as it would have been.
  pub expire_claims-harmless :
      (owner : Service) (lease boundary t : ℕ) (c : Option ℕ) (db : Db)
      → boundary ≤ t
      → (claim_stage j s n owner lease c
          (record ((expire_claims (some boundary) db).1) { now = t })).0
        ≡ (claim_stage j s n owner lease c (record db { now = t })).0
  unfolding claim_stage expire_claims
  expire_claims-harmless owner lease boundary t c db late =
      rw (find_claim-expired boundary db.claims) (from (find_claim j s n db.claims))
    where
      from :
          (o : Option (ℕ × Claim))
          → (claim_row j s n owner lease c
              (expired_found boundary o)
              (record db { claims = expire_rows boundary db.claims; now = t })).0
            ≡ (claim_row j s n owner lease c o (record db { now = t })).0
      from none = refl
      from (some (id, row)) = ground arith
