-- ===== src/Handler/Proofs.antt =====
-- internal/handler/payment.go: what ConfirmPayment asks of an uploaded proof before the service.
use community_waste_collecti.Base.{
  ℕ, ◌*◌, ◌%◌, ◌||◌, String, Bool, List, [], ◌∷◌, ◌==◌, string_eq, ltb, if◌then◌else◌, take,
}
use community_waste_collecti.Handler.Responses.{
  Progress, reached, answered, ◌>>=◌, ◌>>◌, bad_request, parsed, require, refusal,
}
use community_waste_collecti.Handler.Requests.{
  Packages, ProofPart, FormFile, too_large, no_file, part,
}

-- `allowedProofMIME[t]`
unfoldable pub allowed_proof_mime : String → Bool
allowed_proof_mime t = t == "image/jpeg" || t == "image/png" || t == "application/pdf"

-- `int64(h.cfg.MaxUploadSizeMB) << 20`; http.MaxBytesReader takes a negative limit for 0.
unfoldable pub max_bytes : ℕ → ℕ
max_bytes megabytes =
    let shifted = megabytes * 1048576 % 18446744073709551616 in
    if ltb shifted 9223372036854775808 then shifted else 0

abbrev pub proof_of : FormFile → Progress ProofPart
proof_of too_large = answered (refusal 413 "FILE_TOO_LARGE")
proof_of no_file = answered bad_request
proof_of (part p) = reached p

-- The content, unless io.ReadFull reports anything but ErrUnexpectedEOF: of an empty file it
-- reports EOF.
abbrev pub readable : List ℕ → Progress (List ℕ)
readable [] = answered bad_request
readable (b ∷ bytes) = reached (b ∷ bytes)

module _ {Body Decimal : Type 0} (pkg : Packages Body Decimal) where
  -- The gates between the upload and the service: the declared type, the type of the first 512
  -- bytes, and the way back to the start of the file.
  unfoldable pub checked_proof : ProofPart → Progress (List ℕ)
  unfolding allowed_proof_mime
  checked_proof p = do
    require (allowed_proof_mime p.content_type)
    content ← parsed p.content
    bytes ← readable content
    require (allowed_proof_mime (pkg.detect_content_type (take 512 bytes)))
    require p.rewinds
    reached bytes
