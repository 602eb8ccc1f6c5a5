-- ===== src/Sync/Clearing.antt =====
-- What `clear_failed` leaves in the buffer and in the queue.
use yoma.Prelude.{
  ℕ, suc, String, ◌≡◌, refl, true, false, [], ◌∷◌, Option, some, ◌==◌, inl, inr, is_blank, arith,
  ap, sym, ◌∙◌, subst, Bool-cases, eq_iff, contains, is_unique, if◌then◌else◌,
}
use mathlib.Core.Option.{some-injective}
use yoma.Result.{Result, ok}
use yoma.Dict
use yoma.Dict.{Dict}
use yoma.Sync.Model.{is_failed, CloudSyncRecord, record_post_init}
use yoma.Sync.Cloud.{Records}
use yoma.Sync.Offline.{Manager, reset, clear_from, clear_failed}

-- Every record of the entries can be made again.
abbrev pub AreRecords : Dict CloudSyncRecord → Type 0
AreRecords d = Dict.AllEntries (λ k (r : CloudSyncRecord). is_blank r.sync_id ≡ false) d

reset_post_init :
    (r : CloudSyncRecord) → is_blank r.sync_id ≡ false → record_post_init (reset r) ≡ ok (reset r)
unfolding record_post_init
reset_post_init r h = ground (arith, h)

-- What clearing leaves under a key for a record that stood there.
abbrev pub cleared : CloudSyncRecord → CloudSyncRecord
cleared r = if is_failed r.state then reset r else r

clear_fine :
    (n : ℕ) (j : String) (r : CloudSyncRecord) (xs d : Records)
    → is_failed r.state ≡ false
    → clear_from n ((j, r) ∷ xs) d ≡ clear_from n xs d
unfolding clear_from
clear_fine n j r xs d fine = simp fine

clear_broken :
    (n : ℕ) (j : String) (r : CloudSyncRecord) (xs d : Records)
    → is_failed r.state ≡ true
    → is_blank r.sync_id ≡ false
    → clear_from n ((j, r) ∷ xs) d ≡ clear_from (suc n) xs (Dict.put d j (reset r))
unfolding clear_from
clear_broken n j r xs d broken named = simp (broken, reset_post_init r named)

-- The loop returned, and left this under the key.
record Left (k : String) (o : Option CloudSyncRecord) (res : Result ℕ × Records) : Type 0 where
  count : ℕ
  returns : res.0 ≡ ok count
  stands : Dict.get res.1 k ≡ o

module _ (k : String) where
  -- The loop does not touch a key that is not among its entries.
  clear_elsewhere :
      (n : ℕ) (xs d : Records)
      → AreRecords xs
      → contains (Dict.keys xs) k ≡ false
      → Left k (Dict.get d k) (clear_from n xs d)
  unfolding clear_from
  clear_elsewhere n [] d h new = record { count = n; returns = refl; stands = refl }
  clear_elsewhere n ((j, r) ∷ xs) d h new = elim (Bool-cases (is_failed r.state)) [
    | inr fine ↦
        subst (Left k (Dict.get d k)) (sym (clear_fine n j r xs d fine))
          (clear_elsewhere n xs d h.1 (ground (arith, new)))
    | inl broken ↦
        let l = clear_elsewhere (suc n) xs (Dict.put d j (reset r)) h.1 (ground (arith, new)) in
        let other : (j == k) ≡ false = ground (arith, new, eq_iff j k, eq_iff k j) in
        subst (Left k (Dict.get d k)) (sym (clear_broken n j r xs d broken h.0)) (record {
          count = l.count;
          returns = l.returns;
          stands =
              l.stands
              ∙ Dict.get-put d j (reset r) k
              ∙ ap (λ b. if b then some (reset r) else Dict.get d k) other;
        })
  ]

  -- A record that stands among the entries under the key is left cleared.
  clear_here :
      (n : ℕ) (xs d : Records) (r : CloudSyncRecord)
      → AreRecords xs
      → is_unique (Dict.keys xs) ≡ true
      → Dict.get xs k ≡ some r
      → Dict.get d k ≡ some r
      → Left k (some (cleared r)) (clear_from n xs d)
  unfolding Dict.get
  clear_here n [] d r h unique stands now = cc
  clear_here n ((j, s) ∷ xs) d r h unique stands now = elim (Bool-cases (j == k)) [
    | inr other ↦ elim (Bool-cases (is_failed s.state)) [
      | inr fine ↦
          subst (Left k (some (cleared r))) (sym (clear_fine n j s xs d fine))
            (clear_here n xs d r h.1 (ground (arith, unique)) (rw other at stands) now)
      | inl broken ↦ subst (Left k (some (cleared r))) (sym (clear_broken n j s xs d broken h.0)) (
          clear_here (suc n) xs (Dict.put d j (reset s)) r h.1 (ground (arith, unique))
            (rw other at stands)
            (Dict.get-put d j (reset s) k
              ∙ ap (λ b. if b then some (reset s) else Dict.get d k) other
              ∙ now))
    ]
    | inl same ↦
        let s_is_r = some-injective s r (rw same at stands) in
        let absent : contains (Dict.keys xs) k ≡ false =
          ap (contains (Dict.keys xs)) (sym ((eq_iff j k).0 same)) ∙ ground (arith, unique) in
        elim (Bool-cases (is_failed s.state)) [
          | inr fine ↦
              let kept : some r ≡ some (cleared r) =
                ap (λ b. some (if b then reset r else r))
                  (sym (ap (λ (x : CloudSyncRecord). is_failed x.state) (sym s_is_r) ∙ fine)) in
              subst (Left k (some (cleared r))) (sym (clear_fine n j s xs d fine)) (
                subst (λ o. Left k o (clear_from n xs d)) (now ∙ kept)
                  (clear_elsewhere n xs d h.1 absent))
          | inl broken ↦
              let put_here : Dict.get (Dict.put d j (reset s)) k ≡ some (cleared r) =
                Dict.get-put d j (reset s) k
                ∙ ap (λ b. if b then some (reset s) else Dict.get d k) same
                ∙ ap (λ (x : CloudSyncRecord). some (reset x)) s_is_r
                ∙ ap (λ b. some (if b then reset r else r))
                    (sym (ap (λ (x : CloudSyncRecord). is_failed x.state) (sym s_is_r) ∙ broken)) in
              subst (Left k (some (cleared r))) (sym (clear_broken n j s xs d broken h.0)) (
                subst (λ o. Left k o (clear_from (suc n) xs (Dict.put d j (reset s)))) put_here
                  (clear_elsewhere (suc n) xs (Dict.put d j (reset s)) h.1 absent))
        ]
  ]

-- Let the buffer equal the queue, with different keys and an id in each record, and let a failed
-- record stand under a key. Then `clear_failed` returns, and the record is pending in the buffer but
-- failed in the queue still: from there on the two differ.
pub clear_failed_diverges :
    (s : Manager) (k : String) (r : CloudSyncRecord)
    → s.cloud ≡ s.local
    → AreRecords s.local
    → is_unique (Dict.keys s.local) ≡ true
    → Dict.get s.local k ≡ some r
    → is_failed r.state ≡ true
    → ((m : ℕ) × ((clear_failed s).0 ≡ ok m))
      × (Dict.get (clear_failed s).1.local k ≡ some (reset r))
      × (Dict.get (clear_failed s).1.cloud k ≡ some r)
unfolding clear_failed
clear_failed_diverges s k r same h unique stands broken =
    let l = clear_here k 0 s.local s.local r h unique stands stands in
    (
      (l.count, l.returns),
      l.stands ∙ ap (λ b. some (if b then reset r else r)) broken,
      ap (λ d. Dict.get d k) same ∙ stands,
    )
