-- ===== src/Clamd.antt =====
-- nestjs-app/src/ingestion/pipeline/clamd.client.ts: what is sent to clamd, and how its reply is
-- read. The socket is a service: it answers the whole reply, or the call fails.
pub mod Framing
pub mod Reply
pub mod Tests
use mathlib.Core.List.{reverse}
use basket_shared.Prelude.{
  ℕ, ◌/◌, ◌%◌, ◌^◌, Bool, true, false, ◌&&◌, ◌||◌, Option, none, some, List, [], ◌∷◌, ◌++◌, length,
  drop, ◌==◌, leb, if◌then◌else◌, Text, text, starts_with,
}
use basket_shared.World.Entities.{unexpected_reply}
use basket_shared.World.Monad.{error, ok, Async, pure, throw, call, ◌>>=◌}

-- `size.writeUInt32BE(n, 0)`, for a length below 2 ^ 32.
unfoldable pub be32 : ℕ → List ℕ
be32 n = n / 2 ^ 24 % 256 ∷ n / 2 ^ 16 % 256 ∷ n / 2 ^ 8 % 256 ∷ n % 256 ∷ []

-- One chunk of the file: its length, and its bytes.
unfoldable pub frame : List ℕ → List ℕ
unfolding be32
frame chunk = be32 (length chunk) ++ chunk

-- All frames, and the chunk of length zero that ends the stream.
unfoldable pub frames : List (List ℕ) → List ℕ
unfolding frame
frames [] = 0 ∷ 0 ∷ 0 ∷ 0 ∷ []
frames (chunk ∷ chunks) = frame chunk ++ frames chunks

unfoldable pub instream : List (List ℕ) → List ℕ
unfolding frames
instream chunks = text "zINSTREAM" ++ 0 ∷ frames chunks

pub record ScanResult : Type 0 where
  pub clean : Bool
  pub signature : Option Text

-- The white space of `\s` and `trim`.
unfoldable pub is_space : ℕ → Bool
is_space c =
    (leb 9 c && leb c 13)
    || c == 32
    || c == 160
    || c == 5760
    || (leb 8192 c && leb c 8202)
    || c == 8232
    || c == 8233
    || c == 8239
    || c == 8287
    || c == 12288
    || c == 65279

unfoldable pub trim_start : Text → Text
unfolding is_space
trim_start [] = []
trim_start (c ∷ s) = let rest = trim_start s in if is_space c then rest else c ∷ s

unfoldable pub trim_end : Text → Text
unfolding trim_start
trim_end s = reverse (trim_start (reverse s))

unfoldable pub includes : Text → Text → Bool
unfolding starts_with
includes p [] = starts_with p []
includes p (c ∷ s) = starts_with p (c ∷ s) || includes p s

-- `.replace(/^stream:\s*/, '')`
unfoldable pub drop_stream : Text → Text
unfolding trim_start starts_with
drop_stream s = if starts_with (text "stream:") s then trim_start (drop 7 s) else s

-- `.replace(/\s*FOUND$/, '')`
unfoldable pub drop_found : Text → Text
unfolding trim_start starts_with
drop_found s =
    if starts_with (reverse (text "FOUND")) (reverse s)
    then reverse (trim_start (drop 5 (reverse s)))
    else s

-- `none` is the reply that the client rejects as unexpected.
unfoldable pub parse_reply : Text → Option ScanResult
parse_reply response =
    let t = trim_end (trim_start response) in
    if includes (text "FOUND") t
    then some (record { clean = false; signature = some (drop_found (drop_stream t)) })
    else if includes (text "OK") t
    then some (record { clean = true; signature = none })
    else none

abbrev pub or_unexpected : Text → Option ScanResult → Async ScanResult
or_unexpected response none = throw (error (unexpected_reply response))
or_unexpected response (some r) = pure r

unfoldable pub scan_file_with_clamd : Text → Async ScanResult
unfolding call ◌>>=◌ pure throw
scan_file_with_clamd path = do
  response ← call (λ n w. (ok (w.services.scan n path), w))
  or_unexpected response (parse_reply response)
