-- ===== src/Kernel.antt =====
-- What the devices of prj2/src/sample ask of the kernel and of its socket module ksocket: the
-- calls as a history, the answers as a parameter.
use os2016spring.Base.{ℕ, zero, suc, ◌%◌, ◌<◌, ◌≡◌, Bool, true, false, Option, List, [], ◌∷◌, ◌++◌}

-- `int` and `long` results; `negsuc n` is -(n + 1).
pub data ℤ : Type 0 where
  pos : ℕ → ℤ
  negsuc : ℕ → ℤ

-- `++` and `--` of an `int`.
abbrev pub increment : ℤ → ℤ
increment (pos n) = pos (suc n)
increment (negsuc zero) = pos 0
increment (negsuc (suc n)) = negsuc n

abbrev pub decrement : ℤ → ℤ
decrement (pos zero) = negsuc 0
decrement (pos (suc n)) = pos n
decrement (negsuc n) = negsuc (suc n)

-- -1, -EINVAL and -ENOMEM.
abbrev pub minus_one : ℤ
minus_one = negsuc 0

abbrev pub minus_einval : ℤ
minus_einval = negsuc 21

abbrev pub minus_enomem : ℤ
minus_enomem = negsuc 11

abbrev pub Bytes : Type 0
Bytes = List ℕ

abbrev pub page_size : ℕ
page_size = 4096

-- The segment that `set_fs` sets.
pub data AddrLimit : Type 0 where
  user_ds : AddrLimit
  kernel_ds : AddrLimit

-- A socket is named by a number, NULL is none.
abbrev pub Socket : Type 0
Socket = Option ℕ

pub data Call : Type 0 where
  misc_register : Call
  misc_deregister : Call
  ksocket : Call
  kbind : Socket → Call
  klisten : Socket → (backlog : ℕ) → Call
  kaccept : Socket → Call
  kconnect : Socket → Call
  -- the bytes that were taken
  ksend : Socket → Bytes → Call
  krecv : Socket → (length : ℕ) → Call
  kclose : Socket → Call
  copy_from_user : Call
  copy_to_user : Call
  debugfs_create_file : Call
  debugfs_remove : Call
  kmalloc : Call
  -- a page is named by the object that `kmalloc` has given for its `mmap_info`
  get_zeroed_page : (page : ℕ) → Call
  get_page : (page : ℕ) → Call
  -- none is the address 0, for which nothing is freed
  free_page : (page : Option ℕ) → Call
  kfree : (object : ℕ) → Call
  -- the memory manager lets go of the entries of an area that is unmapped
  put_pages : (page entries : ℕ) → Call

-- Newest first.
abbrev pub History : Type 0
History = List Call

-- All bytes that the socket module has taken, in order.
abbrev pub wire : History → Bytes
wire [] = []
wire (Call.ksend _ bytes ∷ h) = wire h ++ bytes
wire (_ ∷ h) = wire h

-- What `krecv` answers.
pub data Received : Type 0 where
  received : Bytes → Received
  recv_error : (code : ℕ) → Received

pub record Kernel : Type 0 where
  -- the address, or none for NULL
  pub kmalloc : History → Option ℕ
  -- what the memory that `kmalloc` gives holds where `reference` will be
  pub left_in_reference : History → ℤ
  -- whether the answer is not 0
  pub get_zeroed_page : History → Bool
  -- whether the answer is not negative
  pub misc_register : History → Bool
  -- the answer where it is negative, as `negsuc` of this
  pub misc_code : History → ℕ
  pub ksocket : History → Socket
  pub kbind : History → Bool
  pub klisten : History → Bool
  pub kaccept : History → Socket
  pub kconnect : History → Bool
  -- how many of the bytes are taken; on an error none
  pub ksend : History → Bytes → ℕ
  pub krecv : History → (length : ℕ) → Received
  -- whether the answer is not -1
  pub kclose : History → Bool
  -- whether all is copied
  pub copy_from_user : History → Bool
  pub copy_to_user : History → Bool
  -- whether the `mmap` of the device gives an address
  pub mmap_device : History → Bool
  -- whether `mmap` of a file maps this many bytes from this offset on
  pub mmap : History → (size offset : ℕ) → Bool

-- What `mmap` promises: the device, of which `mmap_mmap` answers 0, is mapped; a file is, but for a
-- length of 0 or an offset that is no page's.
pub record MapsFiles (k : Kernel) : Type 0 where
  pub maps :
      (h : History) (size offset : ℕ) → 0 < size → offset % 4096 ≡ 0 → k.mmap h size offset ≡ true
  pub maps_device : (h : History) → k.mmap_device h ≡ true
  pub refuses_empty : (h : History) (offset : ℕ) → k.mmap h 0 offset ≡ false
  pub refuses_off_page :
      (h : History) (size offset : ℕ) → ¬ (offset % 4096 ≡ 0) → k.mmap h size offset ≡ false
