-- ===== src/Protocol/Tcp/Peek.antt =====
-- What ngx_healthcheck_tcp_peek takes for a connection that is open.
use nginx_healthcheck_module.Base.{◌≡◌, refl, ap, ◌⊎◌, inl, inr, true, arith}
use nginx_healthcheck_module.Protocol.Udp.{
  eintr, eagain, econnrefused, enomem, enobufs, emfile, enfile, other_error, Answer, bytes, fails,
}
use nginx_healthcheck_module.Protocol.Tcp.{tcp_peek}

-- One byte is there to read, or none yet.
abbrev pub IsAlive : Answer → Type 0
IsAlive a = (a ≡ bytes 1) ⊎ (a ≡ fails eagain)

pub tcp_peek-IsAlive : (a : Answer) → tcp_peek a ≡ true → IsAlive a
unfolding tcp_peek
tcp_peek-IsAlive (bytes n) h = let one : n ≡ 1 = ground arith in inl (ap bytes one)
tcp_peek-IsAlive (fails eagain) h = inr refl
tcp_peek-IsAlive (fails eintr) h = absurd (ground arith)
tcp_peek-IsAlive (fails econnrefused) h = absurd (ground arith)
tcp_peek-IsAlive (fails enomem) h = absurd (ground arith)
tcp_peek-IsAlive (fails enobufs) h = absurd (ground arith)
tcp_peek-IsAlive (fails emfile) h = absurd (ground arith)
tcp_peek-IsAlive (fails enfile) h = absurd (ground arith)
tcp_peek-IsAlive (fails (other_error n)) h = absurd (ground arith)
