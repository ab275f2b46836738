-- ===== src/Tls.antt =====
-- src/parser.c, `try_extract_tls_sni`: the server name of a TLS ClientHello at the start of the
-- reassembled stream.
pub mod Fields
pub mod Stable
pub mod Bound
pub mod Hello
use hyper_dpi.Prelude.{
  ℕ, zero, suc, ◌+◌, ◌-◌, ◌*◌, Bool, true, false, not, ◌==◌, ltb, leb, if◌then◌else◌, Option, none,
  some, ◌>>=◌, ◌>>◌, require, [], ◌∷◌, ◌++◌, Bytes, codes, length, take, u16, u32, Memory, be16,
}
use hyper_dpi.Flow.{FlowState, scan_buf_cap}
use hyper_dpi.Http.{c_string, scan_text}

-- `enum tls_sni_result`, with the text of the last case.
pub data SniResult : Type 0 where
  pending not_present : SniResult
  found : Bytes → SniResult

abbrev pub host_scheme : Bytes
host_scheme = codes "HOST://"

-- `TLS_NEED(n)`: the test that `n` more bytes are there.
abbrev pub has : ℕ → ℕ → ℕ → Bool
has contig offset n = not (ltb contig (u32 (offset + n)))

-- `TLS_NEED(len); offset += len`.
unfoldable pub skip_field : ℕ → ℕ → ℕ → Option ℕ
skip_field contig offset len = do require (has contig offset len); some (u16 (offset + len))

-- The record header, the handshake header, the version and the random bytes: 44 bytes with the
-- length of the session id.
unfoldable pub fixed_fields : Memory → ℕ → Option (Unit {0})
fixed_fields buf contig = do
  require (has contig 0 5)
  require (buf 0 == 0x16)
  require (has contig 5 4)
  require (buf 5 == 0x01)
  require (has contig 9 (2 + 32 + 1))

-- The walk over the fixed fields, the session id, the cipher suites and the compression methods:
-- where the extensions start and where they end. `none` is TLS_SNI_PENDING.
unfoldable pub extensions : Memory → ℕ → Option (ℕ × ℕ)
extensions buf contig = do
  fixed_fields buf contig
  ciphers ← skip_field contig 44 (buf 43)
  require (has contig ciphers 2)
  comp ← skip_field contig (u16 (ciphers + 2)) (be16 buf ciphers)
  require (has contig comp 1)
  ext ← skip_field contig (u16 (comp + 1)) (buf comp)
  require (has contig ext 2)
  let offset = u16 (ext + 2)
  require (has contig offset (be16 buf ext))
  some (offset, u32 (offset + be16 buf ext))

-- `snprintf(scan_buf, …, "HOST://%.*s", n, &buf[p])`: at most `n` bytes, and none from a NUL on.
abbrev pub sni_text : Memory → ℕ → ℕ → Bytes
sni_text buf p n = scan_text (host_scheme ++ c_string buf p n)

-- The name in a server_name extension whose body starts at `offset`: where it is, and its length.
unfoldable pub name_at : Memory → ℕ → ℕ → Option (ℕ × ℕ)
name_at buf contig offset = do
  require (has contig offset 2)
  let p = u16 (offset + 2)
  require (has contig p 3)
  require (buf p == 0x00)
  require (has contig (u16 (p + 3)) (be16 buf (p + 1)))
  some (u16 (p + 3), be16 buf (p + 1))

unfoldable pub with_name : Memory → Option (ℕ × ℕ) → SniResult
with_name buf none = pending
with_name buf (some (p, n)) = found (sni_text buf p n)

unfoldable pub server_name : Memory → ℕ → ℕ → SniResult
server_name buf contig offset = with_name buf (name_at buf contig offset)

-- The extension at `offset`: its type, where its body starts, and its length.
unfoldable pub ext_at : Memory → ℕ → ℕ → ℕ → Option (ℕ × ℕ × ℕ)
ext_at buf contig ext_end offset = do
  require (has contig offset 4)
  let body = u16 (offset + 4)
  let ext_len = be16 buf (offset + 2)
  require (has contig body ext_len)
  require (leb (u32 (body + ext_len)) ext_end)
  some (be16 buf offset, body, ext_len)

-- The rest of the loop's body; `next` goes on behind the extension.
unfoldable pub on_ext : Memory → ℕ → (ℕ → SniResult) → Option (ℕ × ℕ × ℕ) → SniResult
on_ext buf contig next none = pending
on_ext buf contig next (some (ext_type, body, ext_len)) =
    if ext_type == 0x0000 then server_name buf contig body else next (u16 (body + ext_len))

-- The loop over the extensions, with a bound on its rounds, each of which takes four bytes at
-- least.
unfoldable pub walk : ℕ → Memory → ℕ → ℕ → ℕ → SniResult
walk zero buf contig ext_end offset = pending
walk (suc n) buf contig ext_end offset =
    if leb (u32 (offset + 4)) ext_end
    then on_ext buf contig (walk n buf contig ext_end) (ext_at buf contig ext_end offset)
    else not_present

-- The bound on the rounds is the end of the block, at least as large as the block.
unfoldable pub with_extensions : Memory → ℕ → Option (ℕ × ℕ) → SniResult
with_extensions buf contig none = pending
with_extensions buf contig (some (offset, ext_end)) = walk (suc ext_end) buf contig ext_end offset

unfoldable pub extract_tls_sni : Memory → ℕ → SniResult
extract_tls_sni buf contig = with_extensions buf contig (extensions buf contig)

-- The state after the call, and the result.
unfoldable pub with_sni : FlowState → SniResult → SniResult × FlowState
with_sni st pending = (pending, st)
with_sni st not_present = (not_present, st)
with_sni st (found text) = (found text, record st { scan_buf = text })

unfoldable pub try_extract_tls_sni : FlowState → SniResult × FlowState
try_extract_tls_sni st = with_sni st (extract_tls_sni st.buf st.contig_len)
