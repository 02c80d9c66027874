-- ===== src/Engine/Overflow/Stub.antt =====
-- The stub that a leaf keeps for a value in a chain.
use hexxladb.Base.{◌^◌, ℕ, ◌<◌, ◌≡◌, ap, ◌∙◌, refl, true}
use hexxladb.Bytes.BigEndian.{be, of_be, of_be-be}
use hexxladb.Engine.Page.{put}
use hexxladb.Engine.Overflow.{is_overflow_stub, encode_overflow_stub, decode_overflow_stub}

-- For every length of 32 bits and page id of 64 bits: what encodeOverflowStub writes is a stub by
-- isOverflowStub, and decodeOverflowStub reads both numbers back.
pub decode-encode_overflow_stub :
    (logical_len first_page_id : ℕ)
    → logical_len < 2 ^ 32
    → first_page_id < 2 ^ 64
    → (is_overflow_stub (encode_overflow_stub logical_len first_page_id) ≡ true)
      × (decode_overflow_stub (encode_overflow_stub logical_len first_page_id)
          ≡ (logical_len, first_page_id))
unfolding is_overflow_stub encode_overflow_stub decode_overflow_stub be put
decode-encode_overflow_stub logical_len first_page_id small id_small = (
  refl,
  ap (λ n. (n, of_be (be 8 first_page_id))) (of_be-be 4 logical_len small)
      ∙ ap (λ n. (logical_len, n)) (of_be-be 8 first_page_id id_small),
)
