-- ===== src/Vnop.antt =====
-- The vnode operations: the kernel's descriptors, the filter's own enumeration of the operations,
-- function pointers, and the static arrays that relate them (FsdFilter/VNodeHook.h and
-- FsdFilter/VNodeHook.cpp).
pub mod Desc
pub mod VopEnum
pub mod Tables
