-- ===== src/Readwrite/Change.antt =====
-- fs.c: what a change of a block of data does to a file, and what iupdate does.
use sys_prog_assessment.Prelude.{
  ℕ, zero, suc, ◌+◌, ◌<◌, ◌≡◌, ◌≢◌, refl, sym, subst, ◌∙◌, update_self, update_ne, ℕ_discrete,
}
use sys_prog_assessment.Blocks.{Superblock, Volume, log_change}
use sys_prog_assessment.Blocks.Words.{put_word-lt}
use sys_prog_assessment.Blocks.Data.{IsData, log_change-IsData, log_change-IsVolume}
use sys_prog_assessment.Content.{Inode, ndirect, maxfile, iblock}
use sys_prog_assessment.Content.Mapped.{mapped}
use sys_prog_assessment.Content.File.{IsFile, content, content-at, content-none}
use sys_prog_assessment.Readwrite.{store_addrs, put_dinode, iupdate}

-- A block of data that is not the indirect block of the file, with new bytes.
module _ (sb : Superblock) (ip : Inode) (v : Volume) (a : ℕ) (x : ℕ → ℕ) (f : IsFile sb v ip)
    (d : IsData sb v a) (beside : ip.addrs ndirect ≢ 0 → a ≢ ip.addrs ndirect)
    (small : (j : ℕ) → x j < 256) where
  pub mapped-change : (k : ℕ) → mapped (log_change a x v) ip k ≡ mapped v ip k
  unfolding mapped
  mapped-change k = elim (ℕ_discrete (ip.addrs ndirect) 0) [
    | yes z ↦ rw z
    | no z ↦ rw (update_ne v.blocks a x (ip.addrs ndirect) (beside z))
  ]

  pub change-IsFile : IsFile sb (log_change a x v) ip
  change-IsFile = record {
    volume = log_change-IsVolume sb v a x f.volume d small;
    inode = λ k l n. log_change-IsData sb v a (ip.addrs k) x d (f.inode k l n);
    blocks = λ k l n. subst (IsData sb (log_change a x v)) (sym (mapped-change k)) (
        log_change-IsData sb v a (mapped v ip k) x d (f.blocks k l (λ z. n (mapped-change k ∙ z))));
    distinct = λ j k lj lk n e.
        f.distinct j k lj lk (λ z. n (mapped-change j ∙ z))
          (sym (mapped-change j) ∙ e ∙ mapped-change k);
    apart = λ k l n e. f.apart k l n (sym (mapped-change k) ∙ e);
    home = log_change-IsData sb v a (iblock ip.inum sb) x d f.home;
    home_nonzero = f.home_nonzero;
    home_apart = λ k l e. f.home_apart k l (sym (mapped-change k) ∙ e);
    home_indirect = f.home_indirect;
  }

  pub content-change :
      (k : ℕ) → mapped v ip k ≢ a → content (log_change a x v) ip k ≡ content v ip k
  content-change k n = elim (ℕ_discrete (mapped v ip k) 0) [
    | yes z ↦
        content-none (log_change a x v) ip k (mapped-change k ∙ z) ∙ sym (content-none v ip k z)
    | no z ↦
        content-at (log_change a x v) ip k (mapped-change k) z
        ∙ update_ne v.blocks a x (mapped v ip k) (λ p. n (sym p))
        ∙ sym (content-at v ip k refl z)
  ]

  pub content-changed : (k : ℕ) → mapped v ip k ≡ a → a ≢ 0 → content (log_change a x v) ip k ≡ x
  content-changed k e n =
      content-at (log_change a x v) ip k (mapped-change k ∙ e) n ∙ update_self v.blocks a x

store_addrs-lt :
    (n at : ℕ) (a x : ℕ → ℕ) → ((j : ℕ) → x j < 256) → (j : ℕ) → store_addrs n at a x j < 256
unfolding store_addrs
store_addrs-lt zero at a x h j = h j
store_addrs-lt (suc n) at a x h j =
    put_word-lt (at + n) (a n) (store_addrs n at a x) j (store_addrs-lt n at a x h j)

put_dinode-lt : (ip : Inode) (x : ℕ → ℕ) → ((j : ℕ) → x j < 256) → (j : ℕ) → put_dinode ip x j < 256
unfolding put_dinode
put_dinode-lt ip x h =
    store_addrs-lt (ndirect + 1) _ ip.addrs _
      (λ j. put_word-lt _ _ _ j (put_word-lt _ _ _ j (put_word-lt _ _ _ j (h j))))

abbrev pub resize : ℕ → Inode → Inode
resize s ip = record ip { size = s }

pub mapped-resize : (v : Volume) (ip : Inode) (s k : ℕ) → mapped v (resize s ip) k ≡ mapped v ip k
unfolding mapped
mapped-resize v ip s k = refl

pub content-resize :
    (v : Volume) (ip : Inode) (s k : ℕ) → content v (resize s ip) k ≡ content v ip k
unfolding content mapped
content-resize v ip s k = refl

pub resize-IsFile :
    (sb : Superblock) (v : Volume) (ip : Inode) (s : ℕ) → IsFile sb v ip → IsFile sb v (resize s ip)
unfolding mapped
resize-IsFile sb v ip s f = record {
  volume = f.volume;
  inode = f.inode;
  blocks = f.blocks;
  distinct = f.distinct;
  apart = f.apart;
  home = f.home;
  home_nonzero = f.home_nonzero;
  home_apart = f.home_apart;
  home_indirect = f.home_indirect;
}

-- iupdate changes no block of the file.
module _ (sb : Superblock) (v : Volume) (ip : Inode) (f : IsFile sb v ip) where
  pub iupdate-IsFile : IsFile sb (iupdate sb ip v) ip
  unfolding iupdate
  iupdate-IsFile =
      change-IsFile sb ip v (iblock ip.inum sb) _ f f.home (λ n p. f.home_indirect (sym p))
        (put_dinode-lt ip (v.blocks (iblock ip.inum sb)) (f.volume.bytes (iblock ip.inum sb)))

  pub mapped-iupdate : (k : ℕ) → mapped (iupdate sb ip v) ip k ≡ mapped v ip k
  unfolding iupdate
  mapped-iupdate k =
      mapped-change sb ip v (iblock ip.inum sb) _ f f.home (λ n p. f.home_indirect (sym p))
        (put_dinode-lt ip (v.blocks (iblock ip.inum sb)) (f.volume.bytes (iblock ip.inum sb))) k

  pub content-iupdate : (k : ℕ) → k < maxfile → content (iupdate sb ip v) ip k ≡ content v ip k
  unfolding iupdate
  content-iupdate k l =
      content-change sb ip v (iblock ip.inum sb) _ f f.home (λ n p. f.home_indirect (sym p))
        (put_dinode-lt ip (v.blocks (iblock ip.inum sb)) (f.volume.bytes (iblock ip.inum sb))) k
        (f.home_apart k l)
