-- ===== src/Fs/Icache/Keep.antt =====
-- What the operations on a locked inode leave of its entry in the cache.
use mathlib.Core.Path.{subst}
use cs537_project.Prelude.{
  ℕ, zero, suc, ◌+◌, ◌≡◌, inl, inr, refl, ap, ◌∙◌, ◌&&◌, some, of_some-eq, ◌==◌, Bool-cases,
  Option-cases,
}
use cs537_project.Fs.{Blocks, Superblock, bfree}
use cs537_project.Fs.Inode.{
  Inode, ndirect, nindirect, set_addr, free_direct, free_indirect, free_last, itrunc, iblock,
  dinode_at, load_dinode,
}
use cs537_project.Fs.Icache.{load_inode, free_inode, iput_locked}

-- The same entry with the same references.
pub record SameEntry (ip ip' : Inode) : Type 0 where
  pub dev : ip'.dev ≡ ip.dev
  pub inum : ip'.inum ≡ ip.inum
  pub ref : ip'.ref ≡ ip.ref

pub SameEntry-refl : (ip : Inode) → SameEntry ip ip
SameEntry-refl ip = record { dev = refl; inum = refl; ref = refl }

pub load_inode-SameEntry :
    (sb : Superblock) (v : Blocks) (ip ip' : Inode)
    → load_inode sb v ip ≡ some ip'
    → SameEntry ip ip'
unfolding load_inode
load_inode-SameEntry sb v ip ip' e = elim (Bool-cases ip.valid) [
  | inl valid ↦
      subst (SameEntry ip) (of_some-eq (rw valid at e))
        (record { dev = refl; inum = refl; ref = refl })
  | inr stale ↦
      elim (Bool-cases ((load_dinode (v (iblock sb ip.inum)) (dinode_at ip.inum)).type == 0)) [
        | inl no_type ↦ (let e' = rw (stale, no_type) at e in cc)
        | inr typed ↦
            subst (SameEntry ip) (of_some-eq (rw (stale, typed) at e))
              (record { dev = refl; inum = refl; ref = refl })
      ]
]

free_direct-SameEntry :
    (r : ℕ) (sb : Superblock) (v : Blocks) (ip : Inode) (i : ℕ) (ip' : Inode) (v' : Blocks)
    → free_direct r sb v ip i ≡ some (ip', v')
    → SameEntry ip ip'
unfolding free_direct
free_direct-SameEntry zero sb v ip i ip' v' e =
    subst (SameEntry ip) (ap (λ (p : Inode × Blocks). p.0) (of_some-eq e)) (SameEntry-refl ip)
free_direct-SameEntry (suc r) sb v ip i ip' v' e = elim (Bool-cases (ip.copy.addrs i == 0)) [
  | inl empty ↦ free_direct-SameEntry r sb v ip (i + 1) ip' v' (rw (free_direct, empty) at e)
  | inr full ↦ elim (Option-cases (bfree sb v (ip.copy.addrs i))) [
    | inl out ↦ (let e' = rw (free_direct, full, out) at e in cc)
    | inr (v1, freed) ↦
        let rest : SameEntry (set_addr ip i 0) ip' =
          free_direct-SameEntry r sb v1 (set_addr ip i 0) (i + 1) ip' v'
            (rw (free_direct, full, freed) at e) in
        record { dev = rest.dev; inum = rest.inum; ref = rest.ref }
  ]
]

free_last-SameEntry :
    (sb : Superblock) (v : Blocks) (ip ip' : Inode) (v' : Blocks)
    → free_last sb v ip ≡ some (ip', v')
    → SameEntry ip ip'
unfolding free_last
free_last-SameEntry sb v ip ip' v' e = elim (Bool-cases (ip.copy.addrs ndirect == 0)) [
  | inl empty ↦
      subst (SameEntry ip) (ap (λ (p : Inode × Blocks). p.0) (of_some-eq (rw empty at e)))
        (SameEntry-refl ip)
  | inr full ↦ elim (Option-cases (free_indirect nindirect sb v (ip.copy.addrs ndirect) 0)) [
    | inl out ↦ (let e' = rw (full, out) at e in cc)
    | inr (v1, entries) ↦ elim (Option-cases (bfree sb v1 (ip.copy.addrs ndirect))) [
      | inl out ↦ (let e' = rw (full, entries, out) at e in cc)
      | inr (v2, freed) ↦
          subst (SameEntry ip)
            (ap (λ (p : Inode × Blocks). p.0) (of_some-eq (rw (full, entries, freed) at e)))
            (record { dev = refl; inum = refl; ref = refl })
    ]
  ]
]

itrunc-SameEntry :
    (sb : Superblock) (v : Blocks) (ip ip' : Inode) (v' : Blocks)
    → itrunc sb v ip ≡ some (ip', v')
    → SameEntry ip ip'
unfolding itrunc
itrunc-SameEntry sb v ip ip' v' e = elim (Option-cases (free_direct ndirect sb v ip 0)) [
  | inl out ↦ (let e' = rw (itrunc, out) at e in cc)
  | inr ((ip1, v1), direct) ↦ elim (Option-cases (free_last sb v1 ip1)) [
    | inl out ↦ (let e' = rw (itrunc, direct, out) at e in cc)
    | inr ((ip2, v2), last) ↦
        let a = free_direct-SameEntry ndirect sb v ip 0 ip1 v1 direct in
        let b = free_last-SameEntry sb v1 ip1 ip2 v2 last in
        subst (SameEntry ip)
          (ap (λ (p : Inode × Blocks). p.0) (of_some-eq (rw (itrunc, direct, last) at e)))
          (record { dev = b.dev ∙ a.dev; inum = b.inum ∙ a.inum; ref = b.ref ∙ a.ref })
  ]
]

free_inode-SameEntry :
    (sb : Superblock) (v : Blocks) (ip ip' : Inode) (v' : Blocks)
    → free_inode sb v ip ≡ some (ip', v')
    → SameEntry ip ip'
unfolding free_inode
free_inode-SameEntry sb v ip ip' v' e = elim (Option-cases (itrunc sb v ip)) [
  | inl out ↦ (let e' = rw (free_inode, out) at e in cc)
  | inr ((ip1, v1), cut) ↦
      let a = itrunc-SameEntry sb v ip ip1 v1 cut in
      subst (SameEntry ip)
        (ap (λ (p : Inode × Blocks). p.0) (of_some-eq (rw (free_inode, cut) at e)))
        (record { dev = a.dev; inum = a.inum; ref = a.ref })
]

pub iput_locked-SameEntry :
    (sb : Superblock) (v : Blocks) (ip ip' : Inode) (v' : Blocks)
    → iput_locked sb v ip ≡ some (ip', v')
    → SameEntry ip ip'
unfolding iput_locked
iput_locked-SameEntry sb v ip ip' v' e =
    elim (Bool-cases (ip.valid && (ip.copy.nlink == 0) && (ip.ref == 1))) [
      | inr kept ↦
          subst (SameEntry ip) (ap (λ (p : Inode × Blocks). p.0) (of_some-eq (rw kept at e)))
            (SameEntry-refl ip)
      | inl last ↦ free_inode-SameEntry sb v ip ip' v' (rw last at e)
    ]
