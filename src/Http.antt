-- ===== src/Http.antt =====
-- src/parser.c, `find_ci` and `try_extract_http`: the URL and Host header of an HTTP request at the
-- start of the reassembled stream.
--
-- A pointer into a NUL-terminated buffer is the C string that it points to, so that the difference
-- of two pointers into one buffer is a difference of lengths.
pub mod Strings
pub mod Sound
pub mod Complete
pub mod Keeps
pub mod Stable
pub mod Delivered
use hyper_dpi.Prelude.{
  ℕ, zero, suc, ◌+◌, ◌-◌, Bool, true, false, ◌&&◌, ◌||◌, ◌==◌, ltb, leb, if◌then◌else◌, Option,
  none, some, ◌>>=◌, ◌>>◌, require, List, [], ◌∷◌, ◌++◌, Bytes, codes, length, take, u16, Memory,
  update,
}
use hyper_dpi.Flow.{FlowState, scan_buf_cap}

-- The C string at index `i` of a buffer: up to a NUL, and of `n` bytes at most.
unfoldable pub c_string : Memory → ℕ → ℕ → Bytes
c_string buf i zero = []
c_string buf i (suc n) =
    let rest = c_string buf (i + 1) n in if buf i == 0 then [] else buf i ∷ rest

-- `strncmp(s, prefix, strlen(prefix)) == 0`.
unfoldable pub starts_with : Bytes → Bytes → Bool
starts_with s [] = true
starts_with [] (p ∷ ps) = false
starts_with (c ∷ cs) (p ∷ ps) = c == p && starts_with cs ps

-- `tolower` in the C locale.
abbrev pub to_lower : ℕ → ℕ
to_lower c = if leb b'A' c && leb c b'Z' then c + 32 else c

-- `strncasecmp(s, prefix, strlen(prefix)) == 0`.
unfoldable pub starts_with_ci : Bytes → Bytes → Bool
starts_with_ci s [] = true
starts_with_ci [] (p ∷ ps) = false
starts_with_ci (c ∷ cs) (p ∷ ps) = to_lower c == to_lower p && starts_with_ci cs ps

-- `strchr`, for a character that is not NUL.
unfoldable pub strchr : Bytes → ℕ → Option Bytes
strchr [] c = none
strchr (x ∷ xs) c = let rest = strchr xs c in if x == c then some (x ∷ xs) else rest

-- `strstr`, for a needle that is not empty.
unfoldable pub strstr : Bytes → Bytes → Option Bytes
strstr [] needle = none
strstr (c ∷ cs) needle =
    let rest = strstr cs needle in if starts_with (c ∷ cs) needle then some (c ∷ cs) else rest

unfoldable pub find_ci : Bytes → Bytes → Option Bytes
find_ci [] needle = none
find_ci (c ∷ cs) needle =
    let rest = find_ci cs needle in if starts_with_ci (c ∷ cs) needle then some (c ∷ cs) else rest

-- `p + n`, inside the string.
abbrev pub skip : ℕ → Bytes → Bytes
skip zero s = s
skip (suc n) [] = []
skip (suc n) (c ∷ cs) = skip n cs

-- `while (*p == ' ') p++`.
unfoldable pub skip_spaces : Bytes → Bytes
skip_spaces [] = []
skip_spaces (c ∷ cs) = let rest = skip_spaces cs in if c == b' ' then rest else c ∷ cs

abbrev pub http_methods : List Bytes
http_methods =
    codes "GET "
    ∷ codes "POST "
    ∷ codes "HEAD "
    ∷ codes "PUT "
    ∷ codes "DELETE "
    ∷ codes "OPTIONS "
    ∷ []

unfoldable pub has_method : Bytes → List Bytes → Bool
has_method s [] = false
has_method s (m ∷ ms) = starts_with s m || has_method s ms

abbrev pub crlf : Bytes
crlf = 13 ∷ 10 ∷ []

abbrev pub host_header : Bytes
host_header = 13 ∷ 10 ∷ codes "Host:"

abbrev pub http_scheme : Bytes
http_scheme = codes "http://"

-- `snprintf` into `scan_buf`: the text, cut to leave room for its NUL.
abbrev pub scan_text : Bytes → Bytes
scan_text text = take (scan_buf_cap - 1) text

-- The text between the first two spaces.
unfoldable pub find_uri : Bytes → Option Bytes
find_uri buf = do
  sp1 ← strchr buf b' '
  let uri_start = skip 1 sp1
  sp2 ← strchr uri_start b' '
  let uri_len = u16 (length uri_start - length sp2)
  some (take uri_len uri_start)

-- The value of the Host header.
unfoldable pub find_host : Bytes → Option Bytes
find_host buf = do
  host_hdr ← find_ci buf host_header
  let host_val = skip_spaces (skip (length host_header) host_hdr)
  host_end ← strstr host_val crlf
  let host_len = u16 (length host_val - length host_end)
  some (take host_len host_val)

-- What the function does with the string at the start of the buffer.
unfoldable pub extract_http : Bytes → Option Bytes
extract_http buf = do
  require (has_method buf http_methods)
  uri ← find_uri buf
  host ← find_host buf
  some (scan_text (http_scheme ++ (host ++ uri)))

-- The end of the call: a text is left in `scan_buf`.
unfoldable pub with_text : FlowState → Option Bytes → Option Bytes × FlowState
with_text st none = (none, st)
with_text st (some text) = (some text, record st { scan_buf = text })

-- The state after the call, and `*out_str` where it returns true. `*out_len` is that string's
-- length.
unfoldable pub try_extract_http : FlowState → Option Bytes × FlowState
try_extract_http st =
    let st' = record st { buf = update st.buf st.contig_len 0 } in
    with_text st' (extract_http (c_string st'.buf 0 (suc st.contig_len)))
