-- ===== src/Buffers/Empty.antt =====
-- Files without write buffers.
use osz.Base.Errno.{efault}
use osz.Base.{
  ℕ, ◌^◌, ◌≡◌, false, Option-cases, some, List, [], get_elem?, set_self, leb, Bool-cases, inl, inr,
  arith,
}
use osz.Fcb.{Fcb}
use osz.Fs.{Fs}
use osz.Buffers.{drop_covered, insert_buf, store_bytes, write_error, fcb_write}

-- No entry of the table has a write buffer.
pub record NoBuffers (s : Fs) : Type 0 where
  pub empty : (i : ℕ) (f : Fcb) → get_elem? s.fcbs.fcb i ≡ some f → f.buf ≡ []

store_bytes-nil :
    (idx offs : ℕ) (buf : List ℕ) (f : Fcb) (s : Fs)
    → get_elem? s.fcbs.fcb idx ≡ some f
    → f.buf ≡ []
    → store_bytes idx offs buf f s ≡ some (false, s)
unfolding store_bytes drop_covered insert_buf
store_bytes-nil idx offs buf f s e h = ground (arith, set_self s.fcbs.fcb idx f e)

-- When no entry of the table has a write buffer, `fcb_write` stores nothing, whatever it is called
-- with: it returns false, and at most the error number changes.
fcb_write-NoBuffers :
    (idx offs : ℕ) (buf : List ℕ) (s : Fs)
    → NoBuffers s
    → (k : ℕ) × (fcb_write idx offs buf s ≡ some (false, record s { errno = k }))
unfolding fcb_write
fcb_write-NoBuffers idx offs buf s v = elim (Bool-cases (leb (2 ^ 63) offs)) [
  | inl b ↦ (efault, ground arith)
  | inr b ↦ elim (Option-cases (get_elem? s.fcbs.fcb idx)) [
    | inl n ↦ (efault, ground arith)
    | inr (f, e) ↦ elim (Option-cases (write_error f s)) [
      | inl n ↦ (s.errno, ground (arith, store_bytes-nil idx offs buf f s e (v.empty idx f e)))
      | inr (k, w) ↦ (k, ground arith)
    ]
  ]
]
