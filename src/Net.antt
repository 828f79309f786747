-- ===== src/Net.antt =====
-- What the agent takes from outside its own code: the event loop of ae.c, the sockets of anet.c, and
-- the C library. A host `E` is the state of all this; every call may change it. Each function is a
-- parameter here; `HostLaws` names what the proofs use of the documentation of read and write.
pub mod Buffer
pub mod Clock
pub mod Interface
pub mod Tests
use dubbo_service_mesh.Base.{
  [], ◌∷◌, ◌≡◌, refl, ◌⊎◌, inl, inr, ℕ, ◌≤◌, ◌<◌, Bool, List, ◌++◌, ℤ, length, take, suc, ◌==◌,
  if◌then◌else◌,
}
use dubbo_service_mesh.Pool.{Ptr}

-- read(2): at least one byte, the end of the input (0), or an error, EAGAIN or another one.
pub data ReadResult : Type 0 where
  received : (first : ℕ) (rest : List ℕ) → ReadResult
  closed : ReadResult
  failed : (again : Bool) → ReadResult

-- The bytes in the answer of read.
abbrev pub bytes_of : ReadResult → List ℕ
bytes_of (received first rest) = first ∷ rest
bytes_of closed = []
bytes_of (failed again) = []

-- write(2): the number of bytes taken, or an error.
pub data WriteResult : Type 0 where
  wrote : (n : ℕ) → WriteResult
  refused : (again : Bool) → WriteResult

abbrev pub readable : ℕ
readable = 1

abbrev pub writable : ℕ
writable = 2

-- AE_WRITABLE | AE_READABLE
abbrev pub both_ways : ℕ
both_ways = 3

-- `F` are the functions that can be registered as handlers. A descriptor is a C int.
pub record Host (F E : Type 0) : Type 0 where
  pub read : E → (fd : ℤ) → (count : ℕ) → ReadResult × E
  pub write : E → (fd : ℤ) → List ℕ → WriteResult × E
  pub close : E → (fd : ℤ) → E
  -- aeCreateFileEvent; `false` is AE_ERR.
  pub create_file_event : E → (fd : ℤ) → (mask : ℕ) → F → Ptr → Bool × E
  pub delete_file_event : E → (fd : ℤ) → (mask : ℕ) → E
  -- clock_gettime(CLOCK_REALTIME): seconds and nanoseconds.
  pub clock_gettime : E → (ℕ × ℕ) × E
  -- anetTcpConnect; a negative descriptor is a failure.
  pub tcp_connect : E → (ip : List ℕ) → (port : ℤ) → ℤ × E
  -- anetNonBlock and anetEnableTcpNoDelay.
  pub tune : E → (fd : ℤ) → E
  pub sleep : E → ℕ → E
  pub malloc : E → ℕ → Ptr × E
  pub calloc : E → ℕ → ℕ → Ptr × E
  pub dealloc : E → Ptr → E

-- What the documentation of read and write says of counts.
abbrev pub Reads : ℕ → ReadResult → Type 0
Reads count (received first rest) = suc (length rest) ≤ count
Reads count closed = Unit
Reads count (failed again) = Unit

abbrev pub Writes : List ℕ → WriteResult → Type 0
Writes bs (wrote n) = n ≤ length bs
Writes bs (refused again) = Unit

pub record HostLaws {F E : Type 0} (net : Host F E) : Type 0 where
  -- read fills at most the room that it is given.
  pub reads : (e : E) (fd : ℤ) (count : ℕ) → Reads count (net.read e fd count).0
  -- write takes at most what it is given.
  pub writes : (e : E) (fd : ℤ) (bs : List ℕ) → Writes bs (net.write e fd bs).0

-- A store of objects by address.
abbrev pub update {ℓ} : {A : Type ℓ} → (ℕ → A) → ℕ → A → ℕ → A
update f i a j = if j == i then a else f j

pub ReadResult-cases :
    (r : ReadResult)
    → ((first : ℕ) × (rest : List ℕ) × (r ≡ received first rest))
      ⊎ (r ≡ closed)
      ⊎ ((again : Bool) × (r ≡ failed again))
ReadResult-cases (received first rest) = inl (first, rest, refl)
ReadResult-cases closed = inr (inl refl)
ReadResult-cases (failed again) = inr (inr (again, refl))

pub WriteResult-cases :
    (r : WriteResult) → ((n : ℕ) × (r ≡ wrote n)) ⊎ ((again : Bool) × (r ≡ refused again))
WriteResult-cases (wrote n) = inl (n, refl)
WriteResult-cases (refused again) = inr (again, refl)

-- What each socket has accepted so far, `sent e fd`, and how the calls change it: write appends the
-- bytes that it takes, and no other call changes it.
pub record Streams {F E : Type 0} (net : Host F E) (sent : E → ℤ → List ℕ) : Type 0 where
  pub wrote_more :
      (e : E) (fd : ℤ) (bs : List ℕ) (n : ℕ)
      → (net.write e fd bs).0 ≡ wrote n
      → sent (net.write e fd bs).1 fd ≡ sent e fd ++ take n bs
  pub wrote_none :
      (e : E) (fd : ℤ) (bs : List ℕ) (again : Bool)
      → (net.write e fd bs).0 ≡ refused again
      → sent (net.write e fd bs).1 fd ≡ sent e fd
  pub read_keeps : (e : E) (fd at : ℤ) (count : ℕ) → sent (net.read e fd count).1 at ≡ sent e at
  pub create_keeps :
      (e : E) (fd at : ℤ) (mask : ℕ) (f : F) (p : Ptr)
      → sent (net.create_file_event e fd mask f p).1 at ≡ sent e at
  pub connect_keeps :
      (e : E) (ip : List ℕ) (port at : ℤ) → sent (net.tcp_connect e ip port).1 at ≡ sent e at
  pub tune_keeps : (e : E) (fd at : ℤ) → sent (net.tune e fd) at ≡ sent e at
  pub sleep_keeps : (e : E) (n : ℕ) (at : ℤ) → sent (net.sleep e n) at ≡ sent e at
  pub close_keeps : (e : E) (fd at : ℤ) → sent (net.close e fd) at ≡ sent e at
  pub delete_keeps :
      (e : E) (fd at : ℤ) (mask : ℕ) → sent (net.delete_file_event e fd mask) at ≡ sent e at
  pub clock_keeps : (e : E) (at : ℤ) → sent (net.clock_gettime e).1 at ≡ sent e at
  pub malloc_keeps : (e : E) (n : ℕ) (at : ℤ) → sent (net.malloc e n).1 at ≡ sent e at
  pub dealloc_keeps : (e : E) (d : Ptr) (at : ℤ) → sent (net.dealloc e d) at ≡ sent e at

-- The socket always has room for a byte.
pub record Flows {F E : Type 0} (net : Host F E) : Type 0 where
  pub takes :
      (e : E) (fd : ℤ) (bs : List ℕ)
      → 0 < length bs
      → (n : ℕ) × ((net.write e fd bs).0 ≡ wrote n) × (0 < n)
