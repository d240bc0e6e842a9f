-- ===== src/Proxy/Decoys.antt =====
-- `send_illusion_sequence` of scripts/quick_client.py: one to three decoys before the handshake.
use Prim.Native.Nat.{bit_xor}
use aegs_global.Prelude.{
  ℕ, zero, suc, ◌+◌, List, [], ◌∷◌, ◌++◌, bit_and, ◌==◌, if◌then◌else◌, Bytes, be32,
}
use aegs_global.Server.State.{Addr, World, Effect, sendto}

-- The first 32 bytes of the STUN request: the header, and a user name of eight bytes.
unfoldable pub stun_head : World → Bytes
stun_head w =
    (0 ∷ 1 ∷ 0 ∷ 0x14 ∷ 0x21 ∷ 0x12 ∷ 0xa4 ∷ 0x42 ∷ [])
    ++ (w.token_bytes 0 12 ++ ((0 ∷ 6 ∷ 0 ∷ 8 ∷ []) ++ w.token_bytes 1 8))

-- The fingerprint is the checksum of that, by `zlib.crc32`, mixed with a constant.
unfoldable pub stun_decoy : (Bytes → ℕ) → World → Bytes
unfolding stun_head
stun_decoy crc32 w =
    let crc = bit_and (crc32 (stun_head w)) 0xffffffff in
    stun_head w ++ ((0x80 ∷ 0x28 ∷ 0 ∷ 4 ∷ []) ++ be32 (bit_xor crc 0x5354554e))

unfoldable pub quic_decoy : World → Bytes
quic_decoy w =
    (0xc3 ∷ 0 ∷ 0 ∷ 0 ∷ 1 ∷ 8 ∷ [])
    ++ (w.token_bytes 0 8
        ++ ((8 ∷ [])
            ++ (w.token_bytes 1 8
                ++ ((0 ∷ 0x44 ∷ 0x96 ∷ []) ++ (w.token_bytes 2 4 ++ w.token_bytes 3 1170)))))

-- One turn of the loop. What the server answers is read and thrown away.
unfoldable pub decoy : (Bytes → ℕ) → World → Bytes
unfolding stun_decoy quic_decoy
decoy crc32 w = if w.randbelow 0 2 == 0 then stun_decoy crc32 w else quic_decoy w

-- The turns draw one after the other: `ws i` is what turn `i` draws.
unfoldable pub decoys : (Bytes → ℕ) → (ℕ → World) → Addr → ℕ → List Effect
unfolding decoy
decoys crc32 ws addr zero = []
decoys crc32 ws addr (suc n) =
    sendto (decoy crc32 (ws 0)) addr ∷ decoys crc32 (λ i. ws (suc i)) addr n

unfoldable pub send_illusion_sequence : (Bytes → ℕ) → World → (ℕ → World) → Addr → List Effect
unfolding decoys
send_illusion_sequence crc32 w ws addr = decoys crc32 ws addr (1 + w.randbelow 0 3)
