-- ===== src/Engine/Memory/Runs/Keys.antt =====
-- The key under which a project's request is stored.
use parity_lab.Prelude.{◌≡◌, ap, arith, All, length, ◌<◌}
use parity_lab.Prelude.Text.{◌<>◌}
use parity_lab.Prelude.Hex.{hex_encode, hex_encode-injective, count-hex_encode}
use parity_lab.Prelude.{String}
use Prim.Native.String.{count}
use text.Mathlib.TextLemmas.{append_inj, append_cancel_left, length-append}
use parity_lab.Engine.Records.{Digest}
use parity_lab.Engine.Memory.Runs.{tenant_idempotency_key}

-- Equal tenant keys come from one project and one digest, for digests of bytes that have one length.
pub tenant_idempotency_key-injective :
    (p q : String) (h k : Digest)
    → All (λ b. b < 256) h
    → All (λ b. b < 256) k
    → length h ≡ length k
    → tenant_idempotency_key p h ≡ tenant_idempotency_key q k
    → (p ≡ q) × (h ≡ k)
unfolding tenant_idempotency_key
tenant_idempotency_key-injective p q h k hb kb len e =
    let sizes = ap count e in
    let (project, rest) = append_inj e (same_count sizes) in
    (project, hex_encode-injective h k hb kb (append_cancel_left ":" _ _ rest))
  where
    same_count :
        count (p <> (":" <> hex_encode h)) ≡ count (q <> (":" <> hex_encode k)) → count p ≡ count q
    same_count sizes = omega (
      arith,
      length-append p (":" <> hex_encode h),
      length-append q (":" <> hex_encode k),
      length-append ":" (hex_encode h),
      length-append ":" (hex_encode k),
      count-hex_encode h,
      count-hex_encode k,
    )
