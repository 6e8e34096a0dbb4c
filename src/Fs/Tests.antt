-- ===== src/Fs/Tests.antt =====
-- A file system of 100 blocks whose first 20 are in use, and a table with inode 7 in its entry 2.
use io_scheduling.Prelude.{
  ◌+◌, ◌*◌, refl, arith, true, ltb, ◌==◌, if◌then◌else◌, [], Returns, some, ◌>>=◌, ◌&&◌,
}
use io_scheduling.Fs.{Fs, Dinode, balloc}
use io_scheduling.Fs.Bitmap.{is_used, Allocated, balloc_correct}
use io_scheduling.Fs.Content.{Inode, writei, readi}
use io_scheduling.Fs.Content.Layout.{IsFile, lookup}
use io_scheduling.Fs.Content.Writei.{Written, writei_correct}
use io_scheduling.Fs.Content.Readi.{Returned, Same, within, readi_correct, readi-writei}
use io_scheduling.Fs.Truncate.{itrunc}
use io_scheduling.Fs.Truncate.Whole.{Truncated, itrunc_correct}
use io_scheduling.Fs.Directory.{dirlookup}
use io_scheduling.Fs.Directory.Dirlookup.{Resolved, dirlookup_correct}
use io_scheduling.Fs.Inodes.{Itable, IsUnique}

abbrev empty_inode : Dinode
empty_inode = record { type = 0; major = 0; minor = 0; nlink = 0; size = 0; addrs = λ i. 0 }

abbrev twenty : Fs
twenty = record {
  size = 100;
  bmapstart = 45;
  map = λ block i j. ltb (i * 8 + j) 20;
  words = λ b j. 0;
  bytes = λ b j. 0;
  dinode = λ i. empty_inode;
  ninodes = 200;
  inodestart = 32;
  logged = [];
}

balloc_correct_example : Allocated twenty (balloc twenty)
balloc_correct_example = balloc_correct twenty

abbrev seven : Itable
seven = record {
  dev = λ i. 1;
  inum = λ i. if i == 2 then 7 else 0;
  ref = λ i. if i == 2 then 1 else 0;
  valid = λ i. true;
}

seven-IsUnique : IsUnique seven
unfolding IsUnique
seven-IsUnique = λ i j p q f g e e'. ground arith

-- a file of 1500 bytes in blocks 15 and 16
abbrev two_blocks : Inode
two_blocks = record {
  inum = 4;
  body = record {
    type = 2;
    major = 0;
    minor = 0;
    nlink = 1;
    size = 1500;
    addrs = λ i. if i == 0 then 15 else if i == 1 then 16 else 0;
  };
}

two_blocks-IsFile : IsFile two_blocks.body.addrs twenty
unfolding lookup is_used
two_blocks-IsFile = record {
  boot = refl;
  used = λ bn l. ground arith;
  indirect = refl;
  apart = λ bn l ne. ground arith;
  distinct = λ bn cn l m ne e. ground arith;
}

writei_correct_example :
    Written 1400 2000 (λ j. 7) two_blocks twenty (writei (λ j. some 7) 1400 2000 two_blocks twenty)
writei_correct_example =
    writei_correct (λ j. some 7) 1400 2000 (λ j. 7) two_blocks twenty two_blocks-IsFile
      (omega arith) (omega arith) (λ j l. refl)

readi_correct_example :
    Returned 1400
      (within 1500 1400 2000)
      (λ i. 0)
      two_blocks
      twenty
      (readi (λ j. true) 1400 2000 (λ i. 0) two_blocks twenty)
readi_correct_example =
    readi_correct (λ j. true) 1400 2000 (λ i. 0) two_blocks twenty two_blocks-IsFile (omega arith)
      (omega arith) (omega arith) (λ j l. refl)

readi-writei_example :
    Same 1400 2000
      (λ j. 7)
      two_blocks.body.addrs
      twenty
      (writei (λ j. some 7) 1400 2000 two_blocks twenty >>= λ (r, ip', t).
        readi (λ j. true) 1400 2000 (λ i. 0) ip' t)
readi-writei_example =
    readi-writei (λ j. some 7) (λ j. true) 1400 2000 (λ j. 7) (λ i. 0) two_blocks twenty
      two_blocks-IsFile (omega arith) (omega arith) (omega arith) (λ j l. refl) (λ j l. refl)

itrunc_correct_example :
    Returns (λ (ip', t). Truncated two_blocks twenty ip' t) (itrunc two_blocks twenty)
itrunc_correct_example = itrunc_correct two_blocks twenty two_blocks-IsFile

-- a directory of two entries in block 15: one that is not in use, and "a" for inode 7
abbrev with_entries : Fs
with_entries = record twenty {
  bytes = λ b j. if b == 15 && j == 16 then 7 else if b == 15 && j == 18 then 97 else 0;
}

abbrev folder : Inode
folder = record { inum = 1; body = record two_blocks.body { type = 1; size = 32 } }

folder-IsFile : IsFile folder.body.addrs with_entries
unfolding lookup is_used
folder-IsFile = record {
  boot = refl;
  used = λ bn l. ground arith;
  indirect = refl;
  apart = λ bn l ne. ground arith;
  distinct = λ bn cn l m ne e. ground arith;
}

dirlookup_correct_example :
    Resolved 1
      (λ i. if i == 0 then 97 else 0)
      folder
      with_entries
      seven
      (dirlookup 1 (λ i. if i == 0 then 97 else 0) folder (with_entries, seven))
dirlookup_correct_example =
    dirlookup_correct 1 (λ i. if i == 0 then 97 else 0) folder with_entries seven folder-IsFile
      (omega arith) refl seven-IsUnique
