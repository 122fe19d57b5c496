-- ===== src/Network/Speed.antt =====
-- The speed of a link in bytes per second.
use nagios_plugins_linux.Base.{ℕ, ◌*◌, ◌/◌, ◌^◌, ◌<◌, ◌≤◌, ◌≡◌, ◌↔◌, u32, arith}
use nagios_plugins_linux.Network.{link_speed}

scaled_iff : (s : ℕ) → s < 2 ^ 32 → ((u32 (u32 (s * 1000) * 1000) / 8 ≡ s * 125000) ↔ (s ≤ 4294))
scaled_iff s h = ((λ e. omega arith), λ l. omega arith)

-- The speed of a link of some Mbit/s in bytes per second is right exactly up to 4294 Mbit/s: from
-- there on the 32-bit product wraps around.
pub link_speed_iff :
    (speed : ℕ) → speed < 2 ^ 32 → (link_speed speed ≡ speed * 125000) ↔ (speed ≤ 4294)
unfolding link_speed
link_speed_iff speed h = ground (arith, scaled_iff speed h)
