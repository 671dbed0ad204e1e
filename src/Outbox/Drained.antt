-- ===== src/Outbox/Drained.antt =====
-- The drain of the outbox in src/boveda/storage.py, seen from the staging directory and the bucket.
use Prim.Native.String.{◌++◌ as text_append}
use boveda_pyme.Prelude.{
  if◌then◌else◌, ℕ, String, ◌≡◌, refl, sym, ap, ◌∙◌, subst, ◌⊎◌, inl, inr, true, false, Option,
  none, some, List, [], ◌∷◌, arith, str_eq, eq_iff, Bool-cases, Option-cases, is_some, All, All-map,
}
use boveda_pyme.Purge.{ObjectStore}
use boveda_pyme.Outbox.{
  unlink, drain_file, OutboxChunk, Outbox, Staging, Uploader, has_id, claimed, claim, is_listed,
  set_draining, set_processed, set_retry, retry_later, confirm_processed, drain_item, drain_items,
  drain_outbox_queue,
}
use boveda_pyme.Outbox.Rows.{All-update_where, All-claimed}
use boveda_pyme.Outbox.Staged.{IsNamed, IsKept, IsStaged}

-- What the outbox relies on of an upload: it loses no object, and once it returns the object is
-- there.
pub record UploadsFaithfully (uploader : Uploader) : Type 0 where
  pub uploads :
      (tenant key : String) (p : List ℕ) (s3 : ObjectStore)
      → (uploader tenant key p s3).0 ≡ none
      → is_some ((uploader tenant key p s3).1 key) ≡ true
  pub keeps :
      (tenant key : String) (p : List ℕ) (s3 : ObjectStore) (j : String)
      → is_some (s3 j) ≡ true
      → is_some ((uploader tenant key p s3).1 j) ≡ true

module _ (key_of path_of : String → String) where
  uploaded-IsKept :
      (uploader : Uploader) (tenant key : String) (p : List ℕ) (files : Staging) (s3 : ObjectStore)
      (r : OutboxChunk)
      → UploadsFaithfully uploader
      → (IsKept key_of path_of) files s3 r
      → (IsKept key_of path_of) files (uploader tenant key p s3).1 r
  uploaded-IsKept uploader tenant key p files s3 r u k = (
    k.0,
    elim (Bool-cases (is_some (s3 r.storage_key))) [
      | inl e ↦ let kept = u.keeps tenant key p s3 r.storage_key e in ground arith
      | inr e ↦ let either = k.1 in ground arith
    ],
    λ done. u.keeps tenant key p s3 r.storage_key (k.2 done),
  )

  retry-IsStaged :
      (now : ℕ) (exc : String) (item : OutboxChunk) (box : Outbox)
      → (IsStaged key_of path_of) box
      → (IsStaged key_of path_of) (retry_later now exc item box)
  unfolding retry_later set_retry
  retry-IsStaged now exc item box a =
      All-update_where (has_id item.id) (set_retry now exc item.attempts)
        ((IsKept key_of path_of) box.files box.s3) ((IsKept key_of path_of) box.files box.s3)
        box.rows row a
    where
      row :
          (r : OutboxChunk)
          → (IsKept key_of path_of) box.files box.s3 r
          → (IsKept key_of path_of) box.files box.s3
              (if has_id item.id r then set_retry now exc item.attempts r else r)
      row r k = elim (Bool-cases (has_id item.id r)) [
        | inl e ↦ rw e (k.0, k.1, λ p. absurd (ground arith))
        | inr e ↦ rw e k
      ]

  module _ (path_of-injective : (i j : String) → path_of i ≡ path_of j → i ≡ j) where
    other_path :
        (item r : OutboxChunk)
        → (IsNamed key_of path_of) item
        → (IsNamed key_of path_of) r
        → has_id item.id r ≡ false
        → str_eq r.payload_encrypted_path item.payload_encrypted_path ≡ false
    other_path item r n k e =
        elim (Bool-cases (str_eq r.payload_encrypted_path item.payload_encrypted_path)) [
          | inl same ↦
              let paths = (eq_iff r.payload_encrypted_path item.payload_encrypted_path).0 same in
              let ids = path_of-injective r.id item.id (sym k.1 ∙ paths ∙ n.1) in
              let equal = (eq_iff r.id item.id).1 ids in absurd (cc)
          | inr differ ↦ differ
        ]

    confirm-IsStaged :
        (now : ℕ) (item : OutboxChunk) (box : Outbox)
        → (IsNamed key_of path_of) item
        → is_some (box.s3 item.storage_key) ≡ true
        → (IsStaged key_of path_of) box
        → (IsStaged key_of path_of) (confirm_processed now item box)
    unfolding confirm_processed
    confirm-IsStaged now item box n there a =
        All-update_where (has_id item.id) (set_processed now)
          ((IsKept key_of path_of) box.files box.s3) _ box.rows row a
      where
        row :
            (r : OutboxChunk)
            → (IsKept key_of path_of) box.files box.s3 r
            → (IsKept key_of path_of)
                (unlink item.payload_encrypted_path box.files)
                box.s3
                (if has_id item.id r then set_processed now r else r)
        row r k = elim (Bool-cases (has_id item.id r)) [
          | inl e ↦
              let same = (eq_iff r.id item.id).0 e in
              let stored : is_some (box.s3 r.storage_key) ≡ true =
                subst (λ key. is_some (box.s3 key) ≡ true) (n.0 ∙ ap key_of (sym same) ∙ sym k.0.0)
                  there in
              rw e (k.0, ground (arith, stored), λ p. stored)
          | inr e ↦
              let other : str_eq r.payload_encrypted_path item.payload_encrypted_path ≡ false =
                other_path item r n k.0 e in
              rw e (k.0, rw other k.1, k.2)
        ]

    drain_item-IsStaged :
        (uploader : Uploader) (now : ℕ) (item : OutboxChunk) (box : Outbox)
        → UploadsFaithfully uploader
        → (IsNamed key_of path_of) item
        → (IsStaged key_of path_of) box
        → (IsStaged key_of path_of) (drain_item uploader now item box).1
    unfolding drain_item
    drain_item-IsStaged uploader now item box u n a =
        by_file (Option-cases (box.files item.payload_encrypted_path))
      where
        by_end :
            (p : List ℕ) (e : Option String)
            → (uploader item.tenant_id item.storage_key p box.s3).0 ≡ e
            → (IsStaged key_of path_of) (drain_file uploader now item box (some p)).1
        by_end p none e =
            let s3 = (uploader item.tenant_id item.storage_key p box.s3).1 in
            rw e (
              confirm-IsStaged now item (record box { s3 = s3 }) n
                (u.uploads item.tenant_id item.storage_key p box.s3 e)
                (All-map _ _ box.rows
                  (λ r k.
                    uploaded-IsKept uploader item.tenant_id item.storage_key p box.files box.s3 r u
                      k)
                  a))
        by_end p (some exc) e =
            let s3 = (uploader item.tenant_id item.storage_key p box.s3).1 in
            rw e (
              retry-IsStaged now exc item (record box { s3 = s3 })
                (All-map _ _ box.rows
                  (λ r k.
                    uploaded-IsKept uploader item.tenant_id item.storage_key p box.files box.s3 r u
                      k)
                  a))

        by_file :
            (box.files item.payload_encrypted_path ≡ none)
              ⊎ ((p : List ℕ) × (box.files item.payload_encrypted_path ≡ some p))
            → (IsStaged key_of path_of) (drain_item uploader now item box).1
        by_file (inl e) = rw e (
            retry-IsStaged now
              (text_append "Archivo de staging no encontrado: " item.payload_encrypted_path) item
              box a)
        by_file (inr (p, e)) = rw e (by_end p _ refl)

    drain_items-IsStaged :
        (uploader : Uploader) (now : ℕ) (items : List OutboxChunk) (box : Outbox)
        → UploadsFaithfully uploader
        → All (IsNamed key_of path_of) items
        → (IsStaged key_of path_of) box
        → (IsStaged key_of path_of) (drain_items uploader now items box).1
    unfolding drain_items
    drain_items-IsStaged uploader now [] box u n a = a
    drain_items-IsStaged uploader now (item ∷ items) box u n a =
        drain_items-IsStaged uploader now items (drain_item uploader now item box).1 u n.1
          (drain_item-IsStaged uploader now item box u n.0 a)

    -- Provided that a uuid determines its storage key and that different uuids have different
    -- paths, a drain with a faithful uploader keeps each chunk in the staging directory or in the
    -- bucket, and each row that is PROCESSED has its object in the bucket.
    pub drain_outbox_queue-IsStaged :
        (uploader : Uploader) (now max_items : ℕ) (box : Outbox)
        → UploadsFaithfully uploader
        → (IsStaged key_of path_of) box
        → (IsStaged key_of path_of) (drain_outbox_queue uploader now max_items box).1
    unfolding drain_outbox_queue claim
    drain_outbox_queue-IsStaged uploader now max_items box u a =
        let items = claimed now max_items box.rows in
        drain_items-IsStaged uploader now items _ u
          (All-claimed (IsNamed key_of path_of) now max_items box.rows
            (All-map _ (IsNamed key_of path_of) box.rows (λ r k. k.0) a))
          (All-update_where (is_listed items) (set_draining now)
            ((IsKept key_of path_of) box.files box.s3) ((IsKept key_of path_of) box.files box.s3)
            box.rows (row items) a)
      where
        row :
            (items : List OutboxChunk) (r : OutboxChunk)
            → (IsKept key_of path_of) box.files box.s3 r
            → (IsKept key_of path_of) box.files box.s3
                (if is_listed items r then set_draining now r else r)
        row items r k = elim (Bool-cases (is_listed items r)) [
          | inl e ↦ rw e (k.0, k.1, λ p. absurd (ground arith))
          | inr e ↦ rw e k
        ]
