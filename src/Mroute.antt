-- ===== src/Mroute.antt =====
-- internal/mroute: the multicast routes in the kernel and the prevention of loops.
pub mod Kernel
pub mod Vifs
pub mod Ttls
pub mod Entry
pub mod Arp
pub mod Loops
pub mod Keys
pub mod Verdicts
pub mod Agree
pub mod Tests
