-- ===== src/Provider/Dubbo/Frame.antt =====
-- The request that on_http_body puts together is a Dubbo frame, which a reader of the protocol takes
-- apart again.
use dubbo_service_mesh.Base.{
  ℕ, ◌+◌, ◌*◌, ◌^◌, ◌<◌, ◌≡◌, refl, ap₂, ◌∙◌, Option, none, some, List, [], ◌∷◌, ◌++◌, arith,
  length, ◌==◌, ◌&&◌, if◌then◌else◌,
}
use dubbo_service_mesh.Net.Buffer.{
  Buf, blit, slice, slice-append, slice-blit, blit_before, slice-blit_before, slice-blit_after,
  slice-blit_prefix,
}
use dubbo_service_mesh.Provider.Dubbo.{be32, assemble, dubbo_header_len}

-- A big-endian number.
abbrev big_endian : (acc : ℕ) → List ℕ → ℕ
big_endian acc [] = acc
big_endian acc (b ∷ bs) = big_endian (acc * 256 + b) bs

-- The Dubbo protocol's view of a request: its id and its data.
pub record Request : Type 0 where
  pub id : ℕ
  pub text : List ℕ

-- A frame: the magic 0xdabb, the flags (request, two-way, serialization 6), a status byte, an id of
-- eight bytes, a length of four, and the data.
abbrev pub read_frame : List ℕ → Option Request
read_frame
      (m1 ∷ m2 ∷ flags ∷ status ∷ i1 ∷ i2 ∷ i3 ∷ i4 ∷ i5 ∷ i6 ∷ i7 ∷ i8 ∷ l1 ∷ l2 ∷ l3 ∷ l4
        ∷ text) =
    if m1 == 0xda
      && (m2 == 0xbb && (flags == 0xc6 && big_endian 0 (l1 ∷ l2 ∷ l3 ∷ l4 ∷ []) == length text))
    then some
        (record { id = big_endian 0 (i1 ∷ i2 ∷ i3 ∷ i4 ∷ i5 ∷ i6 ∷ i7 ∷ i8 ∷ []); text = text })
    else none
read_frame _ = none

big_endian-be32 : (n : ℕ) → n < 2 ^ 32 → big_endian 0 (be32 n) ≡ n
unfolding be32
big_endian-be32 n h = omega arith

-- Bytes 3 to 7 of `buf_req`, which calloc has cleared.
pub record IsCleared (buf : Buf) : Type 0 where
  pub at3 : buf 3 ≡ 0
  pub at4 : buf 4 ≡ 0
  pub at5 : buf 5 ≡ 0
  pub at6 : buf 6 ≡ 0
  pub at7 : buf 7 ≡ 0

-- The buffer before the length is filled in.
abbrev filled : Buf → ℕ → List ℕ → Buf
filled buf id text =
    blit (blit (blit buf 0 (0xda ∷ 0xbb ∷ 0xc6 ∷ [])) 8 (be32 id)) 16 (text ++ 0 ∷ [])

frame_text :
    (buf : Buf) (id : ℕ) (text : List ℕ) → slice (assemble buf id text) 16 (length text) ≡ text
unfolding assemble be32
frame_text buf id text =
    slice-blit_after (filled buf id text) 12 16 (length text) (be32 (length text)) (omega arith)
    ∙ slice-blit_prefix (blit (blit buf 0 (0xda ∷ 0xbb ∷ 0xc6 ∷ [])) 8 (be32 id)) 16 text (0 ∷ [])

start_cleared :
    (buf : Buf) (id : ℕ)
    → IsCleared buf
    → slice (blit (blit buf 0 (0xda ∷ 0xbb ∷ 0xc6 ∷ [])) 8 (be32 id)) 0 12
      ≡ 0xda ∷ 0xbb ∷ 0xc6 ∷ 0 ∷ 0 ∷ 0 ∷ 0 ∷ 0 ∷ be32 id
unfolding be32 slice blit
start_cleared buf id c = rw (c.at3, c.at4, c.at5, c.at6, c.at7) refl

read_fields :
    (id n : ℕ) (text : List ℕ)
    → id < 2 ^ 32
    → n < 2 ^ 32
    → n ≡ length text
    → read_frame (0xda ∷ 0xbb ∷ 0xc6 ∷ 0 ∷ 0 ∷ 0 ∷ 0 ∷ 0 ∷ (be32 id ++ (be32 n ++ text)))
      ≡ some (record { id = id; text = text })
unfolding be32
read_fields id n text h k e =
    let i : big_endian 0 (0 ∷ 0 ∷ 0 ∷ 0 ∷ be32 id) ≡ id = big_endian-be32 id h in
    let j : big_endian 0 (be32 n) ≡ n = big_endian-be32 n k in ground arith

-- The first twelve bytes.
frame_start :
    (buf : Buf) (id : ℕ) (text : List ℕ)
    → IsCleared buf
    → slice (assemble buf id text) 0 12 ≡ 0xda ∷ 0xbb ∷ 0xc6 ∷ 0 ∷ 0 ∷ 0 ∷ 0 ∷ 0 ∷ be32 id
unfolding assemble be32
frame_start buf id text c =
    let b2 = blit (blit buf 0 (0xda ∷ 0xbb ∷ 0xc6 ∷ [])) 8 (be32 id) in
    slice-blit_before (filled buf id text) 12 0 12 (be32 (length text)) (omega arith)
    ∙ slice-blit_before b2 16 0 12 (text ++ 0 ∷ []) (omega arith)
    ∙ start_cleared buf id c

frame_header :
    (buf : Buf) (id : ℕ) (text : List ℕ)
    → IsCleared buf
    → slice (assemble buf id text) 0 16
      ≡ 0xda ∷ 0xbb ∷ 0xc6 ∷ 0 ∷ 0 ∷ 0 ∷ 0 ∷ 0 ∷ (be32 id ++ be32 (length text))
unfolding assemble be32
frame_header buf id text c =
    slice-append (assemble buf id text) 0 12 4
    ∙ ap₂ ◌++◌ (frame_start buf id text c) (slice-blit (filled buf id text) 12 (be32 (length text)))

-- The header and the data that on_http_body puts into a buffer it has cleared are one Dubbo request
-- frame with the id and the data, when both their numbers fit into 32 bits.
pub read_frame-assemble :
    (buf : Buf) (id : ℕ) (text : List ℕ)
    → IsCleared buf
    → id < 2 ^ 32
    → length text < 2 ^ 32
    → read_frame (slice (assemble buf id text) 0 (dubbo_header_len + length text))
      ≡ some (record { id = id; text = text })
unfolding be32
read_frame-assemble buf id text c h k =
    rw
      (
        slice-append (assemble buf id text) 0 16 (length text),
        frame_header buf id text c,
        frame_text buf id text,
      )
      (read_fields id (length text) text h k refl)

-- Assembling a request leaves bytes 3 to 7 of the buffer zero, if they were.
pub assemble-IsCleared :
    (buf : Buf) (id : ℕ) (text : List ℕ) → IsCleared buf → IsCleared (assemble buf id text)
unfolding assemble be32 blit
assemble-IsCleared buf id text c =
    let b2 = blit (blit buf 0 (0xda ∷ 0xbb ∷ 0xc6 ∷ [])) 8 (be32 id) in
    let kept = λ (j : ℕ) (h : j < 12).
      blit_before (filled buf id text) 12 j (be32 (length text)) h
      ∙ blit_before b2 16 j (text ++ 0 ∷ []) (omega arith) in
    record {
      at3 = kept 3 (omega arith) ∙ c.at3;
      at4 = kept 4 (omega arith) ∙ c.at4;
      at5 = kept 5 (omega arith) ∙ c.at5;
      at6 = kept 6 (omega arith) ∙ c.at6;
      at7 = kept 7 (omega arith) ∙ c.at7;
    }
