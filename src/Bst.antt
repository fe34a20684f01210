-- ===== src/Bst.antt =====
-- artifact/cpp/bst/vcas_bst.h and vcas_bst_impl.h: the external search tree whose child pointers are
-- versioned objects of the range query provider. A node is an address; its child pointers are
-- addresses of the provider's memory (Rq.antt), and its other fields and the descriptors of LLX and
-- SCX stand beside that memory. The operations are those of one thread that runs alone, from any
-- memory: also one that other threads left in the middle of an operation.
--
-- Keys and values are numbers, `Compare` is `<`; NO_KEY, NO_VALUE and the constant `root` are
-- arguments. `none` is fuel that ran out.
pub mod Llx
pub mod Search
pub mod Update
pub mod Tree
pub mod Tidy
pub mod Grow
pub mod Above
pub mod Attach
pub mod Insert
pub mod Create
pub mod Erase
pub mod Range
pub mod Count
mod Examples
use vcaslib.Common.{ℕ, ◌+◌, ◌*◌, ◌≡◌, Bool, true, false, List, [], ◌∷◌, update}
use vcaslib.Rq.{Ptr, Addr, null, Mem, init_node}
use vcaslib.Rq.Sequential.{read_addr, write_addr}
use vcaslib.Descriptors.{dummy_tag}

-- `&node->left` and `&node->right`
abbrev pub left_of : Ptr → Addr
left_of p = 2 * p

abbrev pub right_of : Ptr → Addr
right_of p = 2 * p + 1

-- `SCXRecord`
pub record ScxRecord : Type 0 where
  pub mutables : ℕ
  pub new_node : Ptr
  pub target : Addr
  pub nodes_to_freeze : ℕ
  pub nodes : List Ptr
  pub seen : List ℕ

pub record Store : Type 0 where
  pub mem : Mem
  pub key : Ptr → ℕ
  pub value : Ptr → ℕ
  pub scx_record : Ptr → ℕ
  pub marked : Ptr → Bool
  pub records : ℕ → ScxRecord

-- `rqProvider->read_addr(tid, addr)`
abbrev pub read : Store → Addr → Store × Ptr
read s a = (record s { mem = (read_addr s.mem a).0 }, (read_addr s.mem a).1)

-- `initializeNode`
unfoldable pub initialize_node : Store → Ptr → (key value : ℕ) → (left right : Ptr) → Store
unfolding init_node
initialize_node s n key value left right = record s {
  mem = write_addr (write_addr (init_node s.mem n) (left_of n) left) (right_of n) right;
  key = update s.key n key;
  value = update s.value n value;
  scx_record = update s.scx_record n dummy_tag;
  marked = update s.marked n false;
}
