-- ===== src/RsaPadding/DataBlock.antt =====
-- providers/arm_asm/rsa_oaep.hpp: the data block of OAEP, built and opened.
use claude_crypto.Base.{
  ℕ, zero, suc, ◌+◌, ◌-◌, ◌^◌, ◌<◌, ◌≤◌, ◌≡◌, ◌≢◌, inl, inr, refl, sym, ap, ap₂, ◌∙◌, false, not,
  ◌||◌, ◌==◌, ltb, Bool-cases, bit_or, bit_or-both, some, ◌∷◌, ◌++◌, length, length-append,
  length-take, length-drop, length-replicate, take, drop, take-append-drop, take-append_at,
  drop-append_at, drop-add, replicate, arith,
}
use claude_crypto.Api.Result.{Bytes}
use claude_crypto.RsaPadding.{
  flag, oaep_hash_len, or_differences, ScanState, scan_loop, opened, oaep_db, oaep_open,
}
use claude_crypto.RsaPadding.Scan.{
  or_differences-zero, or_differences_same, scanning, scan_loop-separator, scan_loop-IsSeparated,
}

drop-separator : (n : ℕ) (m : Bytes) → drop (n + 1) (replicate n 0 ++ (1 ∷ m)) ≡ m
drop-separator zero m = refl
drop-separator (suc n) m =
    let next : suc n + 1 ≡ suc (n + 1) = omega arith in
    ap (λ (k : ℕ). drop k (0 ∷ (replicate n 0 ++ (1 ∷ m)))) next ∙ drop-separator n m

length-separated : (n : ℕ) (m : Bytes) → length (replicate n 0 ++ (1 ∷ m)) ≡ n + 1 + length m
length-separated n m =
    omega (arith, length-append (replicate n 0) (1 ∷ m), length-replicate {A = ℕ} n 0)

some-eq : {x y : Bytes} → some x ≡ some y → x ≡ y
some-eq e = cc

flagged : (found : ℕ) → found ≡ 0 → flag (found == 0) ≢ 0
flagged found missing e = ground (arith, missing)

opened-found :
    (start : ℕ) (db : Bytes) (pt_max : ℕ)
    → length db - start ≤ pt_max
    → opened (scanning 0 1 start) db pt_max ≡ some (drop start db)
unfolding opened
opened-found start db pt_max room =
    let fits : ltb pt_max (length db - start) ≡ false = ground arith in rw fits refl

-- What passes `opened` had no error, and is what stands behind the separator.
opened-some :
    (s : ScanState) (db : Bytes) (pt_max : ℕ) (m : Bytes)
    → opened s db pt_max ≡ some m
    → (s.err ≡ 0) × (s.found ≢ 0) × (drop s.msg_start db ≡ m)
unfolding opened
opened-some s db pt_max m h =
    elim (Bool-cases
      (not (bit_or s.err (flag (s.found == 0)) == 0) || ltb pt_max (length db - s.msg_start))) [
        | inl refused ↦ absurd (cc (rw refused at h))
        | inr passed ↦
            let both = bit_or-both s.err (flag (s.found == 0)) (ground (arith, passed)) in
            (both.0, λ missing. flagged s.found missing both.1, some-eq (rw passed at h))
      ]

module _ (sha384 : Bytes → Bytes) (hash : (m : Bytes) → length (sha384 m) ≡ oaep_hash_len)
    (label : Bytes) where
  pub length-oaep_db :
      (pt : Bytes) (db_len : ℕ)
      → length pt + 49 ≤ db_len
      → length (oaep_db sha384 pt label db_len) ≡ db_len
  unfolding oaep_db
  length-oaep_db pt db_len fits =
      let n : ℕ = db_len - oaep_hash_len - 1 - length pt in
      omega (
        arith,
        length-append (sha384 label) (replicate n 0 ++ (1 ∷ pt)),
        length-separated n pt,
        hash label,
        fits,
      )

  pub open-db :
      (pt : Bytes) (db_len pt_max : ℕ)
      → length pt + 49 ≤ db_len
      → db_len < 2 ^ 64
      → length pt ≤ pt_max
      → oaep_open sha384 0 (oaep_db sha384 pt label db_len) label pt_max ≡ some pt
  unfolding oaep_open oaep_db
  open-db pt db_len pt_max fits small room =
      let n : ℕ = db_len - oaep_hash_len - 1 - length pt in
      let db : Bytes = oaep_db sha384 pt label db_len in
      let front : take oaep_hash_len db ≡ sha384 label =
        take-append_at oaep_hash_len (sha384 label) (replicate n 0 ++ (1 ∷ pt)) (hash label) in
      let back : drop oaep_hash_len db ≡ replicate n 0 ++ (1 ∷ pt) =
        drop-append_at oaep_hash_len (sha384 label) (replicate n 0 ++ (1 ∷ pt)) (hash label) in
      let size : length db ≡ db_len = length-oaep_db pt db_len fits in
      let same_hash : or_differences 0 (take oaep_hash_len db) (sha384 label) ≡ 0 =
        ap (λ (x : Bytes). or_differences 0 x (sha384 label)) front
        ∙ or_differences_same 0 (sha384 label) in
      let found : scan_loop oaep_hash_len (drop oaep_hash_len db)
            (scanning (or_differences 0 (take oaep_hash_len db) (sha384 label)) 0 (length db))
          ≡ scanning 0 1 (oaep_hash_len + n + 1) =
        ap₂ (λ (x : Bytes) (e : ℕ). scan_loop oaep_hash_len x (scanning e 0 (length db))) back
          same_hash
        ∙ scan_loop-separator oaep_hash_len n pt 0 (length db) (omega (arith, small, fits))
            (omega (arith, size, small)) in
      ap (λ (s : ScanState). opened s db pt_max) found
      ∙ opened-found (oaep_hash_len + n + 1) db pt_max (omega (arith, size, room, fits))
      ∙ ap some (
          ap (λ (k : ℕ). drop k db) (omega arith)
          ∙ drop-add oaep_hash_len (n + 1) db
          ∙ ap (drop (n + 1)) back
          ∙ drop-separator n pt)

  -- A data block that is opened is the one of its message.
  pub db-open :
      (y : ℕ) (db : Bytes) (pt_max : ℕ) (m : Bytes)
      → 49 ≤ length db
      → length db < 2 ^ 63
      → oaep_open sha384 y db label pt_max ≡ some m
      → (y ≡ 0) × (length m + 49 ≤ length db) × (db ≡ oaep_db sha384 m label (length db))
  unfolding oaep_open oaep_db
  db-open y db pt_max m big small h =
      let front : Bytes = take oaep_hash_len db in
      let back : Bytes = drop oaep_hash_len db in
      let start : ScanState = scanning (or_differences y front (sha384 label)) 0 (length db) in
      let (no_error, found, message) =
        opened-some (scan_loop oaep_hash_len back start) db pt_max m h in
      let (clean, sep) =
        scan_loop-IsSeparated oaep_hash_len back (or_differences y front (sha384 label)) (length db)
          (omega (arith, length-drop oaep_hash_len db, small)) (omega (arith, small)) no_error
          found in
      let (first, same_hash) =
        or_differences-zero y front (sha384 label)
          (omega (arith, length-take oaep_hash_len db, hash label, big)) clean in
      let whole : sep.message ≡ m =
        sym (
          ap (λ (k : ℕ). drop k db) (sep.start ∙ omega arith)
          ∙ drop-add oaep_hash_len (sep.zeros + 1) db
          ∙ ap (drop (sep.zeros + 1)) sep.split
          ∙ drop-separator sep.zeros sep.message)
        ∙ message in
      let size : length back ≡ sep.zeros + 1 + length m =
        ap length sep.split
        ∙ length-separated sep.zeros sep.message
        ∙ ap (λ (x : Bytes). sep.zeros + 1 + length x) whole in
      let count : sep.zeros ≡ length db - oaep_hash_len - 1 - length m =
        omega (arith, size, length-drop oaep_hash_len db, big) in
      (
        first,
        omega (arith, size, length-drop oaep_hash_len db, big),
        sym (take-append-drop oaep_hash_len db)
            ∙ ap₂ (λ (x z : Bytes). x ++ z) same_hash
                (sep.split ∙ ap₂ (λ (n : ℕ) (x : Bytes). replicate n 0 ++ (1 ∷ x)) count whole),
      )
