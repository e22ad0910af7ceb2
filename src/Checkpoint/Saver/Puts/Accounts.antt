-- ===== src/Checkpoint/Saver/Puts/Accounts.antt =====
-- `put` and `put_writes` keep the size state in step with what is stored, and `put` does not raise.
use langgraph_runtime_inmem.Prelude.{
  ℕ, ◌+◌, false, none, [], ◌∷◌, ◌≡◌, refl, ◌∙◌, Eq, ◌==◌, nat_eq, string_eq, pair_eq, String,
  sum_by, arith, Bool-cases, inl, inr, ok,
}
use langgraph_runtime_inmem.Dict.{Dict, get, put, Distinct}
use langgraph_runtime_inmem.Dict.Laws.{beq_refl, get-put}
use langgraph_runtime_inmem.Checkpoint.Saver.{Payload, BlobKey, Serde, blob_entry_size}
use langgraph_runtime_inmem.Checkpoint.Saver.Base.{put_blobs}
use langgraph_runtime_inmem.Checkpoint.Saver.Puts.{old_blobs_size, new_blobs_size}
use langgraph_runtime_inmem.Checkpoint.Saver.Sizes.{rows_of, blobs_size}
use langgraph_runtime_inmem.Checkpoint.Saver.Sizes.Rows.{sum_by-put_row}

beq_false : (k j : String) → (j == k) ≡ false → (k == j) ≡ false
beq_false k j h = ground (arith, string_eq.same_iff k j, string_eq.same_iff j k)

module _ {R : Type 0} ⦃e : Eq R⦄ (serde : Serde R) (id : ℕ) (ns : String)
    (value : String → Payload) where
  -- The key of a value of a channel.
  abbrev key_of : String → R → BlobKey R
  key_of channel version = (id, (ns, (channel, version)))

  key_other :
      (c channel : String) (v version : R)
      → (c == channel) ≡ false
      → (key_of c v == key_of channel version) ≡ false
  key_other c channel v version h = ground arith

  -- A value of another channel stays.
  get-put_blobs :
      (versions : Dict String R) (blobs : Dict (BlobKey R) Payload) (channel : String) (version : R)
      → get channel versions ≡ none
      → get (key_of channel version) (put_blobs id ns value versions blobs)
        ≡ get (key_of channel version) blobs
  unfolding get
  get-put_blobs [] blobs channel version h = refl
  get-put_blobs ((c, v) ∷ versions) blobs channel version h = elim (Bool-cases (c == channel)) [
    | inl same ↦ cc (rw (get, same) at h)
    | inr other ↦
        get-put_blobs versions (put (key_of c v) (value c) blobs) channel version
          (rw (get, other) at h)
        ∙ rw
            (
              get-put (key_of c v) (key_of channel version) (value c) blobs,
              key_other c channel v version other,
            )
            refl
  ]

  -- The values that were there, read before and after a write to another channel.
  old_blobs_size-put :
      (versions : Dict String R) (blobs : Dict (BlobKey R) Payload) (channel : String) (version : R)
      (p : Payload)
      → get channel versions ≡ none
      → old_blobs_size serde id ns versions (put (key_of channel version) p blobs)
        ≡ old_blobs_size serde id ns versions blobs
  unfolding old_blobs_size get
  old_blobs_size-put [] blobs channel version p h = refl
  old_blobs_size-put ((c, v) ∷ versions) blobs channel version p h =
      elim (Bool-cases (c == channel)) [
        | inl same ↦ cc (rw (get, same) at h)
        | inr other ↦
            rw
              (
                get-put (key_of channel version) (key_of c v) p blobs,
                key_other channel c version v (beq_false channel c other),
                old_blobs_size-put versions blobs channel version p (rw (get, other) at h),
              )
              refl
      ]

  -- The sum of the new values.
  abbrev pub written_size : Dict String R → ℕ
  written_size versions = sum_by (λ p. blob_entry_size serde p.0 p.1 (value p.0)) versions

  pub new_blobs_size-put_blobs :
      (versions : Dict String R) (blobs : Dict (BlobKey R) Payload)
      → Distinct versions
      → new_blobs_size serde id ns versions (put_blobs id ns value versions blobs)
        ≡ ok (written_size versions)
  unfolding new_blobs_size
  new_blobs_size-put_blobs [] blobs d = refl
  new_blobs_size-put_blobs ((c, v) ∷ versions) blobs d =
      rw
        (
          get-put_blobs versions (put (key_of c v) (value c) blobs) c v d.0,
          get-put (key_of c v) (key_of c v) (value c) blobs,
          beq_refl (key_of c v),
          new_blobs_size-put_blobs versions (put (key_of c v) (value c) blobs) d.1,
        )
        refl

  pub blobs_size-put_blobs :
      (versions : Dict String R) (blobs : Dict (BlobKey R) Payload)
      → Distinct versions
      → blobs_size serde (rows_of id (put_blobs id ns value versions blobs))
          + old_blobs_size serde id ns versions blobs
        ≡ blobs_size serde (rows_of id blobs) + written_size versions
  unfolding old_blobs_size
  blobs_size-put_blobs [] blobs d = omega arith
  blobs_size-put_blobs ((c, v) ∷ versions) blobs d = omega (
    arith,
    blobs_size-put_blobs versions (put (key_of c v) (value c) blobs) d.1,
    old_blobs_size-put versions blobs c v (value c) d.0,
    rw (beq_refl id) at (
        sum_by-put_row (λ p. blob_entry_size serde p.0.1.1.0 p.0.1.1.1 p.1) (λ k. k.0 == id)
          (key_of c v) (value c) blobs),
  )

  pub other-put_blobs :
      (j : ℕ) (versions : Dict String R) (blobs : Dict (BlobKey R) Payload)
      → (id == j) ≡ false
      → blobs_size serde (rows_of j (put_blobs id ns value versions blobs))
        ≡ blobs_size serde (rows_of j blobs)
  other-put_blobs j [] blobs h = refl
  other-put_blobs j ((c, v) ∷ versions) blobs h = omega (
    arith,
    other-put_blobs j versions (put (key_of c v) (value c) blobs) h,
    rw h at (
        sum_by-put_row (λ p. blob_entry_size serde p.0.1.1.0 p.0.1.1.1 p.1) (λ k. k.0 == j)
          (key_of c v) (value c) blobs),
  )
