-- ===== src/Directory/NewInode.antt =====
-- The inode of a directory that f_mkdir makes (filesystem.c).
use file_system_project.Prelude.{ℕ, ◌∙◌, Bool, true, false, arith, set, length-set, if◌then◌else◌}
use file_system_project.Prelude.Int.{ℤ, pos, IsInt}
use file_system_project.Layout.{Inode, dir}
use file_system_project.Layout.RoundTrip.{IsInode}
use file_system_project.Disk.Geometry.{IsBlock}
use file_system_project.BlockMap.Extend.{AllInt-set}

-- The inode of the new directory in block b.
abbrev pub directory_inode : Bool → Inode → ℤ → ℕ → Inode
directory_inode set_last new_inode parent_index b = record new_inode {
  size = pos 128;
  type = dir;
  parent_inode_index = parent_index;
  dblocks = set new_inode.dblocks 0 (pos b);
  last_block_index = if set_last then pos b else new_inode.last_block_index;
}

pub IsInode-directory_inode :
    (set_last : Bool) (node : Inode) (parent_index : ℤ) (b : ℕ)
    → IsBlock b
    → IsInt parent_index
    → IsInode node
    → IsInode (directory_inode set_last node parent_index b)
IsInode-directory_inode set_last node parent_index b hb hp w = record {
  disk_identifier = w.disk_identifier;
  parent_inode_index = hp;
  next_inode = w.next_inode;
  size = omega arith;
  uid = w.uid;
  gid = w.gid;
  ctime = w.ctime;
  mtime = w.mtime;
  atime = w.atime;
  type = omega arith;
  permission = w.permission;
  inode_index = w.inode_index;
  dblocks = AllInt-set node.dblocks 0 b hb w.dblocks;
  iblocks = w.iblocks;
  i2block = w.i2block;
  i3block = w.i3block;
  last_block_index = last set_last;
  length-dblocks = length-set node.dblocks 0 (pos b) ∙ w.length-dblocks;
  length-iblocks = w.length-iblocks;
}
  where
    last : (l : Bool) → IsInt (if l then pos b else node.last_block_index)
    last true = omega arith
    last false = w.last_block_index
