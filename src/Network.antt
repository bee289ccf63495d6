-- ===== src/Network.antt =====
-- src/Network: what a socket sends, from the buffers that are given to it to the calls of the kernel, and
-- what it reads.
pub mod Kernel
pub mod SendMsg
pub mod SendMmsg
pub mod SendTo
pub mod RecvBuffer
pub mod Socket
pub mod Receive
pub mod UdpServer
pub mod TcpServer
pub mod Connect
pub mod Accept
