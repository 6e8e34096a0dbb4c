-- ===== src/Fs/Content/Given.antt =====
-- A block that `balloc` has taken becomes a block of a file, or its indirect block (kernel/fs.c, `bmap`).
use io_scheduling.Prelude.{
  ℕ, ◌+◌, ◌-◌, ◌<◌, ◌≡◌, ◌≢◌, ◌∙◌, sym, ap, refl, arith, true, update, inl, inr, ℕ_discrete,
}
use io_scheduling.Fs.{Fs, Addrs, ndirect}
use io_scheduling.Fs.Bitmap.{is_used, Taken}
use io_scheduling.Fs.Content.Count.{free_blocks, missing, free_blocks-Taken, free_blocks_same}
use io_scheduling.Fs.Content.Layout.{blocks, lookup, IsFile, Extends, Grown}

pub Taken-Extends : (b : ℕ) (s t : Fs) → Taken b s t → Extends s t
Taken-Extends b s t k = record { size = k.size; used = λ a u. ground (arith, k.used a) }

-- A block in use is not the one that balloc has taken.
pub Taken-ne : (b a : ℕ) (s t : Fs) → Taken b s t → is_used s a ≡ true → a ≢ b
Taken-ne b a s t k u e = absurd (ground (arith, k.free))

-- Block `b`, which balloc has taken, is given to the file as its block `bn`.
module _ (bn b : ℕ) (addrs addrs' : Addrs) (s t u : Fs) (f : IsFile addrs s) (k : Taken b s t)
    (low : bn < blocks) (ind : addrs' ndirect ≡ addrs ndirect) (here : lookup addrs' u bn ≡ b)
    (before : lookup addrs s bn ≡ 0)
    (others : (cn : ℕ) → cn < blocks → cn ≢ bn → lookup addrs' u cn ≡ lookup addrs s cn)
    (used : (a : ℕ) → is_used u a ≡ is_used t a) (size : u.size ≡ t.size)
    (bytes : (a : ℕ) → u.bytes a ≡ t.bytes a) where
  taken_ne : (a : ℕ) → is_used s a ≡ true → a ≢ b
  taken_ne a = Taken-ne b a s t k

  used_after : (cn : ℕ) → cn < blocks → is_used u (lookup addrs' u cn) ≡ true
  used_after cn l = elim (ℕ_discrete cn bn) [
    | yes e ↦ rw e (ground (arith, here, used b, k.used b))
    | no ne ↦
        (let o = others cn l ne in
          ground (arith, o, used (lookup addrs s cn), k.used (lookup addrs s cn), f.used cn l))
  ]

  given-IsFile : IsFile addrs' u
  given-IsFile = record {
    boot = ground (arith, used 0, k.used 0, f.boot);
    used = used_after;
    indirect = ground (arith, ind, used (addrs ndirect), k.used (addrs ndirect), f.indirect);
    apart = λ cn l ne. elim (ℕ_discrete cn bn) [
      | yes e ↦ (let n = taken_ne (addrs ndirect) f.indirect in rw e (ground (arith, here, ind, n)))
      | no ne' ↦
          (let o = others cn l ne' in
            let a = f.apart cn l (ground (arith, o)) in ground (arith, o, ind, a))
    ];
    distinct = λ cn dn l m ne e. elim (ℕ_discrete cn bn) [
      | yes c ↦ (elim (ℕ_discrete dn bn) [
        | yes d ↦ c ∙ sym d
        | no d ↦
            (let o = others dn m d in
              let n = taken_ne (lookup addrs s dn) (f.used dn m) in
              absurd (n (sym o ∙ sym e ∙ ap (lookup addrs' u) c ∙ here)))
      ])
      | no c ↦ (elim (ℕ_discrete dn bn) [
        | yes d ↦
            (let o = others cn l c in
              let n = taken_ne (lookup addrs s cn) (f.used cn l) in
              absurd (n (sym o ∙ e ∙ ap (lookup addrs' u) d ∙ here)))
        | no d ↦
            f.distinct cn dn l m (λ z. ne (others cn l c ∙ z))
              (sym (others cn l c) ∙ e ∙ others dn m d)
      ])
    ];
  }

  pub given-Grown : Grown bn b addrs s addrs' u
  given-Grown = record {
    file = given-IsFile;
    here = here;
    there = λ z. taken_ne 0 f.boot (sym z);
    others = others;
    blank = inr (before, λ j. ap (λ h. h j) (bytes b) ∙ k.blank j);
    bytes = λ a us. bytes a ∙ k.contents a (taken_ne a us);
    extends = record { size = size ∙ k.size; used = λ a us. ground (arith, used a, k.used a, us) };
    free =
        (let taken = free_blocks-Taken b s t k in
          let same = free_blocks_same t u used size in
          let base : missing addrs' ≡ missing addrs = ground (arith, ind) in omega arith);
  }

-- a block that the file has already
pub kept-Grown :
    (bn : ℕ) (addrs : Addrs) (s : Fs)
    → IsFile addrs s
    → bn < blocks
    → lookup addrs s bn ≢ 0
    → Grown bn (lookup addrs s bn) addrs s addrs s
kept-Grown bn addrs s f low ne = record {
  file = f;
  here = refl;
  there = ne;
  others = λ cn l n. refl;
  blank = inl refl;
  bytes = λ a u. refl;
  extends = record { size = refl; used = λ a u. u };
  free = omega arith;
}

pub Extends-trans : (s t u : Fs) → Extends s t → Extends t u → Extends s u
Extends-trans s t u h k = record { size = k.size ∙ h.size; used = λ a us. k.used a (h.used a us) }

-- The file has its indirect block, and nothing else of it has changed.
pub record Based (addrs : Addrs) (s : Fs) (addrs' : Addrs) (t : Fs) : Type 0 where
  pub file : IsFile addrs' t
  pub there : addrs' ndirect ≢ 0
  pub same : (cn : ℕ) → cn < blocks → lookup addrs' t cn ≡ lookup addrs s cn
  pub bytes : (a : ℕ) → is_used s a ≡ true → t.bytes a ≡ s.bytes a
  pub extends : Extends s t
  pub before : addrs ndirect ≡ 0
  pub free : free_blocks t + 1 ≡ free_blocks s

pub Based-Grown :
    (bn b : ℕ) (addrs a1 a2 : Addrs) (s t u : Fs)
    → IsFile addrs s
    → bn < blocks
    → Based addrs s a1 t
    → Grown bn b a1 t a2 u
    → Grown bn b addrs s a2 u
Based-Grown bn b addrs a1 a2 s t u f low h g = record {
  file = g.file;
  here = g.here;
  there = g.there;
  others = λ cn l n. g.others cn l n ∙ h.same cn l;
  blank = elim g.blank [
    | inl e ↦ inl (sym (h.same bn low) ∙ e)
    | inr (e, z) ↦ inr (sym (h.same bn low) ∙ e, z)
  ];
  bytes = λ a us. g.bytes a (h.extends.used a us) ∙ h.bytes a us;
  extends = record {
    size = g.extends.size ∙ h.extends.size;
    used = λ a us. g.extends.used a (h.extends.used a us);
  };
  free =
      (let now : missing a1 ≡ 0 = ground (arith, h.there) in
        let old : missing addrs ≡ 1 = ground (arith, h.before) in
        let one = h.free in let two = g.free in omega arith);
}

pub new_base :
    (b : ℕ) (addrs : Addrs) (s t : Fs)
    → IsFile addrs s
    → addrs ndirect ≡ 0
    → Taken b s t
    → Based addrs s (update addrs ndirect b) t
unfolding lookup
new_base b addrs s t f e k = record {
  file = record {
    boot = ground (arith, k.used 0, f.boot);
    used = λ bn l. rw (same bn l) (ground (arith, k.used (lookup addrs s bn), f.used bn l));
    indirect = ground (arith, k.used b);
    apart = λ bn l ne. rw (same bn l) (Taken-ne b (lookup addrs s bn) s t k (f.used bn l));
    distinct = λ bn cn l m ne q.
        f.distinct bn cn l m (λ z. ne (same bn l ∙ z)) (sym (same bn l) ∙ q ∙ same cn m);
  };
  there = λ z. absurd (ground (arith, k.free, f.boot));
  same = same;
  bytes = λ a u. k.contents a (Taken-ne b a s t k u);
  extends = Taken-Extends b s t k;
  before = e;
  free = free_blocks-Taken b s t k;
}
  where
    same : (cn : ℕ) → cn < blocks → lookup (update addrs ndirect b) t cn ≡ lookup addrs s cn
    same cn l = ground (arith, k.zeroed (cn - ndirect))
