-- ===== src/Fs/Truncate/Whole.antt =====
-- `itrunc` (kernel/fs.c) as a whole.
use io_scheduling.Prelude.{
  ℕ, ◌+◌, ◌-◌, ◌≤◌, ◌<◌, ◌≡◌, ◌≢◌, ◌∙◌, sym, ap, subst, refl, arith, Bool, true, false, not, ◌==◌,
  ◌&&◌, ◌||◌, update, inr, ℕ_discrete, dec_lt, ◌>>=◌, Returns,
}
use io_scheduling.Fs.{Fs, Addrs, ndirect, nindirect}
use io_scheduling.Fs.Bitmap.{is_used}
use io_scheduling.Fs.Content.{Inode, iupdate}
use io_scheduling.Fs.Content.Layout.{blocks, lookup, lookup_direct, lookup_indirect, IsFile}
use io_scheduling.Fs.Truncate.{itrunc, itrunc_direct, itrunc_rest}
use io_scheduling.Fs.Truncate.Freed.{
  listed, listed_in, listed_out, Freed, Freed-trans, Freed-none, bfree-Freed, IsOwn,
  itrunc_direct-Cleared, itrunc_indirect-Freed,
}

-- the blocks that `itrunc_rest` frees
unfoldable rest_of : Addrs → Fs → ℕ → Bool
rest_of addrs s a =
    let b = addrs ndirect in not (b == 0) && (listed (s.words b) nindirect 0 a || a == b)

-- the blocks of a file
unfoldable owned : Addrs → Fs → ℕ → Bool
owned addrs s a = listed addrs ndirect 0 a || rest_of addrs s a

direct-IsOwn : (addrs : Addrs) (s : Fs) → IsFile addrs s → IsOwn addrs ndirect 0 s
unfolding lookup
direct-IsOwn addrs s f = (
  λ j l p q m z e.
      let d : j ≡ l = f.distinct j l (omega arith) (omega arith) (ground arith) (ground arith) in
      omega arith,
  λ j p q z. ground (arith, f.used j (omega arith)),
)

-- the file has an indirect block, and its direct blocks have been freed
module _ (addrs : Addrs) (s t : Fs) (f : IsFile addrs s) (ne : addrs ndirect ≢ 0)
    (h : Freed (listed addrs ndirect 0) s t) where
  entry : (j : ℕ) → lookup addrs s (ndirect + j) ≡ t.words (addrs ndirect) j
  entry j = lookup_indirect addrs s j ne ∙ ap (λ w. w (addrs ndirect) j) (sym h.words)

  still_used :
      (a : ℕ)
      → ((bn : ℕ) → bn < ndirect → addrs bn ≢ 0 → addrs bn ≢ a)
      → is_used s a ≡ true
      → is_used t a ≡ true
  still_used a apart u =
      let out = listed_out addrs ndirect 0 a (λ bn p q. apart bn (omega arith)) in
      h.used a ∙ ground (arith, out, u)

  indirect-IsOwn : IsOwn (t.words (addrs ndirect)) nindirect 0 t
  indirect-IsOwn = (
    λ j l p q m z e.
        let d =
          f.distinct (ndirect + j) (ndirect + l) (omega arith) (omega arith)
            (λ y. z (sym (entry j) ∙ y)) (entry j ∙ e ∙ sym (entry l)) in
        omega arith,
    λ j p q z.
        still_used (t.words (addrs ndirect) j)
          (λ bn low nz e.
            let d =
              f.distinct bn (ndirect + j) (omega arith) (omega arith)
                (λ y. nz (sym (lookup_direct addrs s bn low) ∙ y))
                (lookup_direct addrs s bn low ∙ e ∙ sym (entry j)) in
            omega arith)
          (subst (λ a. is_used s a ≡ true) (entry j) (f.used (ndirect + j) (omega arith))),
  )

  index_used : is_used t (addrs ndirect) ≡ true
  index_used =
      still_used (addrs ndirect)
        (λ bn low nz e.
          f.apart bn (omega arith) (λ y. nz (sym (lookup_direct addrs s bn low) ∙ y))
            (lookup_direct addrs s bn low ∙ e))
        f.indirect

  rest_Freed :
      (addrs' : Addrs)
      → addrs' ndirect ≡ addrs ndirect
      → Returns
          (λ (a, u). Freed (rest_of addrs s) t u × (a ≡ update addrs' ndirect 0))
          (itrunc_rest (addrs', t))
  unfolding itrunc_rest rest_of
  rest_Freed addrs' e =
      let b = addrs ndirect in
      let (u, r, k) = itrunc_indirect-Freed nindirect 0 b t indirect-IsOwn in
      let apart : listed (t.words b) nindirect 0 b ≡ false =
        listed_out (t.words b) nindirect 0 b (λ j p q z e.
          f.apart (ndirect + j) (omega arith) (λ y. z (sym (entry j) ∙ y)) (entry j ∙ e)) in
      let (v, r', k') = bfree-Freed b u (k.used b ∙ ground (arith, apart, index_used)) in
      let same : listed (t.words b) nindirect 0 ≡ listed (s.words b) nindirect 0 =
        ap (λ w. listed (w b) nindirect 0) h.words in
      (
        (update addrs' ndirect 0, v),
        ground (arith, e, r, r'),
        (
          Freed-trans (listed (t.words b) nindirect 0) (λ a. a == b) (rest_of addrs s) t u v
              (λ a. ground (arith, ap (λ g. g a) same)) k k',
          refl,
        ),
      )

loops-Freed :
    (addrs : Addrs) (s : Fs)
    → IsFile addrs s
    → Returns
        (λ (a, u). Freed (owned addrs s) s u × ((i : ℕ) → i ≤ ndirect → a i ≡ 0))
        (itrunc_direct ndirect 0 addrs s >>= itrunc_rest)
unfolding owned rest_of itrunc_rest
loops-Freed addrs s f =
    let ((addrs', t), r, (h, cleared, kept)) =
      itrunc_direct-Cleared ndirect 0 addrs s (direct-IsOwn addrs s f) in
    let last : addrs' ndirect ≡ addrs ndirect = kept ndirect (inr (omega arith)) in
    elim (ℕ_discrete (addrs ndirect) 0) [
      | yes z ↦ (
        (addrs', t),
        ground (arith, r, last),
        (
          Freed-trans (listed addrs ndirect 0) (λ a. false) (owned addrs s) s t t
              (λ a. ground arith) h (Freed-none (λ a. false) t (λ a. refl)),
          λ i l. elim (ℕ_discrete i ndirect) [
            | yes e ↦ ap addrs' e ∙ last ∙ z
            | no ne ↦ cleared i (omega arith) (omega arith)
          ],
        ),
      )
      | no ne ↦
          (let ((a, u), r', (k, e)) = rest_Freed addrs s t f ne h addrs' last in
            (
              (a, u),
              ap (λ x. x >>= itrunc_rest) r ∙ r',
              (
                Freed-trans (listed addrs ndirect 0) (rest_of addrs s) (owned addrs s) s t u
                    (λ a. refl) h k,
                λ i l. ap (λ g. g i) e ∙ elim (ℕ_discrete i ndirect) [
                  | yes e ↦ ground arith
                  | no ne ↦ ground (arith, cleared i (omega arith) (omega arith))
                ],
              ),
            ))
    ]

owned_in :
    (addrs : Addrs) (s : Fs) (bn : ℕ)
    → bn < blocks
    → lookup addrs s bn ≢ 0
    → owned addrs s (lookup addrs s bn) ≡ true
unfolding owned rest_of lookup
owned_in addrs s bn low ne = elim (dec_lt bn ndirect) [
  | yes l ↦
      (let h =
          listed_in addrs ndirect 0 bn (lookup addrs s bn) (omega arith) (omega arith)
            (ground arith) ne in
        ground (arith, h))
  | no m ↦
      (let b = addrs ndirect in
        let there : b ≢ 0 = λ z. ne (ground arith) in
        let h =
          listed_in (s.words b) nindirect 0 (bn - ndirect) (lookup addrs s bn) (omega arith)
            (omega arith) (ground arith) ne in
        ground (arith, h))
]

owned_index : (addrs : Addrs) (s : Fs) → addrs ndirect ≢ 0 → owned addrs s (addrs ndirect) ≡ true
unfolding owned rest_of
owned_index addrs s ne = ground arith

owned_out :
    (addrs : Addrs) (s : Fs) (a : ℕ)
    → ((bn : ℕ) → bn < blocks → lookup addrs s bn ≢ 0 → lookup addrs s bn ≢ a)
    → (addrs ndirect ≢ 0 → addrs ndirect ≢ a)
    → owned addrs s a ≡ false
unfolding owned rest_of
owned_out addrs s a all index =
    let first = listed_out addrs ndirect 0 a (λ j p q z e.
      all j (omega arith) (λ y. z (sym (lookup_direct addrs s j (omega arith)) ∙ y))
        (lookup_direct addrs s j (omega arith) ∙ e)) in
    elim (ℕ_discrete (addrs ndirect) 0) [
      | yes z ↦ ground (arith, first)
      | no ne ↦
          (let b = addrs ndirect in
            let more = listed_out (s.words b) nindirect 0 a (λ j p q z e.
              all (ndirect + j) (omega arith) (λ y. z (sym (lookup_indirect addrs s j ne) ∙ y))
                (lookup_indirect addrs s j ne ∙ e)) in
            let apart = index ne in ground (arith, first, more, apart))
    ]

-- The file is empty, its blocks are free, and all else is as it was.
pub record Truncated (ip : Inode) (s : Fs) (ip' : Inode) (t : Fs) : Type 0 where
  pub freed :
      (bn : ℕ)
      → bn < blocks
      → lookup ip.body.addrs s bn ≢ 0
      → is_used t (lookup ip.body.addrs s bn) ≡ false
  pub index : ip.body.addrs ndirect ≢ 0 → is_used t (ip.body.addrs ndirect) ≡ false
  pub kept :
      (a : ℕ)
      → ((bn : ℕ) → bn < blocks → lookup ip.body.addrs s bn ≢ 0 → lookup ip.body.addrs s bn ≢ a)
      → (ip.body.addrs ndirect ≢ 0 → ip.body.addrs ndirect ≢ a)
      → is_used t a ≡ is_used s a
  pub bytes : t.bytes ≡ s.bytes
  pub words : t.words ≡ s.words
  pub size : t.size ≡ s.size
  pub empty : (i : ℕ) → i ≤ ndirect → ip'.body.addrs i ≡ 0
  pub inode : ip' ≡ record ip { body = record ip.body { size = 0; addrs = ip'.body.addrs } }
  pub disk : t.dinode ip.inum ≡ ip'.body
  pub others : (i : ℕ) → i ≢ ip.inum → t.dinode i ≡ s.dinode i

-- itrunc of a well-formed file never panics: exactly the blocks of the file and its indirect block
-- become free, no block changes as data or as block numbers and no other inode does, and the inode,
-- in memory and on the disk, is that of an empty file with the same type and links.
pub itrunc_correct :
    (ip : Inode) (s : Fs)
    → IsFile ip.body.addrs s
    → Returns (λ (ip', t). Truncated ip s ip' t) (itrunc ip s)
unfolding itrunc iupdate is_used
itrunc_correct ip s f =
    let ((addrs, u), r, (h, empty)) = loops-Freed ip.body.addrs s f in
    let ip' : Inode = record ip { body = record ip.body { size = 0; addrs = addrs } } in
    (
      (ip', iupdate ip' u),
      rw r,
      record {
        freed = λ bn l ne.
            h.used (lookup ip.body.addrs s bn) ∙ ground (arith, owned_in ip.body.addrs s bn l ne);
        index =
            λ ne. h.used (ip.body.addrs ndirect) ∙ ground (arith, owned_index ip.body.addrs s ne);
        kept = λ a all index. h.used a ∙ ground (arith, owned_out ip.body.addrs s a all index);
        bytes = h.bytes;
        words = h.words;
        size = h.size;
        empty = empty;
        inode = refl;
        disk = ground arith;
        others = λ i ne. ground (arith, ap (λ d. d i) h.dinode);
      },
    )
