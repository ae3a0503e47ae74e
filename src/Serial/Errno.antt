-- ===== src/Serial/Errno.antt =====
-- The values of errno on Linux that modules/serial/rs485_serial.c sets or looks at.
use edgevision_gateway.Common.{ℕ}

abbrev pub eintr : ℕ
eintr = 4

abbrev pub eio : ℕ
eio = 5

-- EWOULDBLOCK is the same number.
abbrev pub eagain : ℕ
eagain = 11

abbrev pub einval : ℕ
einval = 22

abbrev pub eoverflow : ℕ
eoverflow = 75

abbrev pub enobufs : ℕ
enobufs = 105

abbrev pub ecanceled : ℕ
ecanceled = 125

abbrev pub ebadf : ℕ
ebadf = 9

abbrev pub etimedout : ℕ
etimedout = 110
